-- ===== src/Convenient/Delays.antt =====
-- The delays of convenient.h and of the older versions in netdrv_veth and ioctl_kernel_poc: DELAY_LOOP and delay_sec.
use l3_dd_trg.Base.{
  ℕ, zero, suc, ◌*◌, ◌%◌, ◌≡◌, ◌≢◌, ◌↔◌, not, refl, ap, Bool, true, false, List, [], ◌∷◌, replicate,
  arith, if◌then◌else◌, ◌==◌,
}
use l3_dd_trg.Base.Int.{ℤ, pos, negsuc, sub_ℕ}

-- `beep`: the character that is printed.
unfoldable beep : ℕ → ℕ
beep what = what % 256

-- `DELAY_LOOP(val, loop_count)`: what is printed.
unfoldable delay_loop : ℕ → ℕ → List ℕ
delay_loop val zero = []
delay_loop val (suc loop_count) = beep val ∷ delay_loop val loop_count

-- What a call of `delay_sec` waits for; `jiffies` has the argument of `schedule_timeout`.
pub data Sleep : Type 0 where
  no_sleep forever : Sleep
  jiffies : ℤ → Sleep

-- `val * HZ`, as if a `long` had room for it
abbrev pub times : ℤ → ℕ → ℤ
times (pos n) hz = pos (n * hz)
times (negsuc n) hz = sub_ℕ 0 (suc n * hz)

abbrev is_minus_one : ℤ → Bool
is_minus_one (pos n) = false
is_minus_one (negsuc n) = n == 0

unfoldable delay_sec : Bool → ℕ → ℤ → Sleep
delay_sec in_task hz val =
    if in_task then (if is_minus_one val then forever else jiffies (times val hz)) else no_sleep

-- A loop prints its character as often as it is told.
delay_loop_lem : (val loop_count : ℕ) → delay_loop val loop_count ≡ replicate loop_count (val % 256)
unfolding delay_loop beep
delay_loop_lem val zero = refl
delay_loop_lem val (suc n) = ap (λ s. val % 256 ∷ s) (delay_loop_lem val n)

-- It sleeps without an end exactly in a task that asks for -1, and for a number of seconds that is not
-- negative in a task for as many jiffies; outside of a task it does not sleep.
delay_sec_lem :
    (in_task : Bool) (hz : ℕ) (val : ℤ)
    → (delay_sec in_task hz val ≡ forever ↔ (in_task ≡ true) × (val ≡ negsuc 0))
      × ((n : ℕ) → in_task ≡ true → val ≡ pos n → delay_sec in_task hz val ≡ jiffies (pos (n * hz)))
      × (delay_sec in_task hz val ≡ no_sleep ↔ in_task ≡ false)
unfolding delay_sec
delay_sec_lem in_task hz val =
    ((ground arith, ground arith), λ n t e. rw (t, e) refl, (ground arith, ground arith))

-- The versions of ioctl_kernel_poc/convenient.h: `DELAY_LOOP`, which loops longer between two characters,
-- and `DELAY_SEC`, which asks for an interrupt instead of a task, and knows no -1.
unfoldable older_beep : ℕ → ℕ
older_beep what = what % 256

unfoldable older_delay_loop : ℕ → ℕ → List ℕ
older_delay_loop val zero = []
older_delay_loop val (suc loop_count) = older_beep val ∷ older_delay_loop val loop_count

unfoldable older_delay_sec : Bool → ℕ → ℤ → Sleep
older_delay_sec in_interrupt hz val = if in_interrupt then no_sleep else jiffies (times val hz)

same_loop : (val n : ℕ) → older_delay_loop val n ≡ delay_loop val n
unfolding older_delay_loop delay_loop older_beep beep
same_loop val zero = refl
same_loop val (suc n) = ap (λ s. val % 256 ∷ s) (same_loop val n)

-- Both versions print the same. Where a place is a task exactly if it is no interrupt, both wait for
-- the same but for -1 in a task, where the older one asks for a negative number of jiffies, not for ever.
older_delay-delay :
    (val loop_count : ℕ) (in_task : Bool) (hz : ℕ) (seconds : ℤ)
    → (older_delay_loop val loop_count ≡ delay_loop val loop_count)
      × (seconds ≢ negsuc 0
          → older_delay_sec (not in_task) hz seconds ≡ delay_sec in_task hz seconds)
      × (older_delay_sec (not true) hz (negsuc 0) ≡ jiffies (sub_ℕ 0 (1 * hz)))
      × (delay_sec true hz (negsuc 0) ≡ forever)
unfolding older_delay_sec delay_sec
older_delay-delay val loop_count in_task hz seconds =
    (same_loop val loop_count, λ other. ground arith, refl, refl)
