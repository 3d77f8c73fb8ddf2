-- ===== src/Sleeps.antt =====
-- ktime_stuff/time_lld_cookbk/delays_sleeps.c: seven ways to wait, each with the time that it took.
use l3_dd_trg.Base.{
  ℕ, suc, ◌+◌, ◌-◌, ◌/◌, ◌%◌, ◌^◌, ◌<◌, ◌≤◌, ◌≡◌, refl, List, [], ◌∷◌, length, arith,
}
use l3_dd_trg.Base.Int.{ℤ, einval}

pub data Wait : Type 0 where
  ndelay_10 udelay_10 mdelay_10 usleep_range_10 msleep_10 msleep_interruptible_10 ssleep_10 : Wait

-- A line of `print_time`: what was waited with, and the nanoseconds, microseconds and milliseconds.
pub record Took : Type 0 where
  pub wait : Wait
  pub ns : ℕ
  pub us : ℕ
  pub ms : ℕ

-- `print_time`, with the clock's answers before and after.
unfoldable print_time : Wait → ℕ → ℕ → Took
print_time wait t0 t1 =
    let ns = (t1 + 2 ^ 64 - t0) % 2 ^ 64 in
    record { wait = wait; ns = ns; us = ns / 1000; ms = ns / 1000000 }

-- `delays_sleeps_init`: the result and the lines, with the clock's answers in turn.
unfoldable delays_sleeps_init : (ℕ → ℕ) → ℤ × List Took
delays_sleeps_init clock = (
  einval,
  print_time ndelay_10 (clock 0) (clock 1)
      ∷ print_time udelay_10 (clock 2) (clock 3)
      ∷ print_time mdelay_10 (clock 4) (clock 5)
      ∷ print_time usleep_range_10 (clock 6) (clock 7)
      ∷ print_time msleep_10 (clock 8) (clock 9)
      ∷ print_time msleep_interruptible_10 (clock 10) (clock 11)
      ∷ print_time ssleep_10 (clock 12) (clock 13)
      ∷ [],
)

abbrev total_ns : List Took → ℕ
total_ns [] = 0
total_ns (t ∷ ts) = t.ns + total_ns ts

-- With a clock that does not go back and has not gone round: the load is always refused with -EINVAL,
-- and the seven times that it shows add up to no more than what passed from its first look at the clock
-- to its last.
delays_sleeps_init_lem :
    (clock : ℕ → ℕ)
    → ((n : ℕ) → clock n ≤ clock (suc n))
    → clock 13 < 2 ^ 64
    → ((delays_sleeps_init clock).0 ≡ einval)
      × (length (delays_sleeps_init clock).1 ≡ 7)
      × (clock 0 + total_ns (delays_sleeps_init clock).1 ≤ clock 13)
unfolding delays_sleeps_init print_time
delays_sleeps_init_lem clock up small = (
  refl,
  refl,
  omega (arith, up 0, up 1, up 2, up 3, up 4, up 5, up 6, up 7, up 8, up 9, up 10, up 11, up 12),
)
