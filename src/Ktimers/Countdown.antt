-- ===== src/Ktimers/Countdown.antt =====
-- How long the timer of ktimers.c goes on.
use l3_dd_trg.Base.{ℕ, zero, suc, ◌-◌, ◌^◌, ◌<◌, ◌≡◌, refl, ap, ◌∙◌, false, ◌==◌, not, ltb, arith}
use l3_dd_trg.Base.Int.{ℤ}
use l3_dd_trg.Ktimers.{Kdata, ding, expire, expire_all, ktimers_init, ktimers_exit}

-- A timer with `n` calls to go.
abbrev armed : ℕ → Kdata
armed n = record { pending = not (n == 0); data_left = n }

expire-armed : (n : ℕ) → n < 2 ^ 32 → expire (armed n) ≡ armed (n - 1)
unfolding expire ding
expire-armed n h = ground arith

expire_all-armed : (k n : ℕ) → n < 2 ^ 32 → expire_all k (armed n) ≡ armed (n - k)
unfolding expire_all
expire_all-armed zero n h = let same : n ≡ n - 0 = omega arith in ap armed same
expire_all-armed (suc k) n h =
    let less : n - 1 - k ≡ n - suc k = omega arith in
    ap (expire_all k) (expire-armed n h) ∙ expire_all-armed k (n - 1) (omega arith) ∙ ap armed less

expire_all-idle : (k : ℕ) (kd : Kdata) → kd.pending ≡ false → expire_all k kd ≡ kd
unfolding expire_all
expire_all-idle zero kd h = refl
expire_all-idle (suc k) kd h =
    let idle : expire kd ≡ kd = unfold expire in rw h refl in
    ap (expire_all k) idle ∙ expire_all-idle k kd h

-- The timer expires 114 times and then never again: after any number k of expiries the count is
-- 114 - k, or 0 from there on, and the timer is pending exactly as long as k is less than 114. After
-- the teardown, whenever it comes, nothing changes any more.
pub ktimers_countdown :
    (stat : ℤ) (k more : ℕ)
    → (expire_all k (ktimers_init stat).1 ≡ record { pending = ltb k 114; data_left = 114 - k })
      × (expire_all more (ktimers_exit (expire_all k (ktimers_init stat).1))
          ≡ record { pending = false; data_left = 114 - k })
unfolding ktimers_init ktimers_exit
ktimers_countdown stat k more =
    let after : expire_all k (armed 114) ≡ armed (114 - k) = expire_all-armed k 114 (omega arith) in
    let waits : armed (114 - k) ≡ record { pending = ltb k 114; data_left = 114 - k } =
      ground arith in
    (
      after ∙ waits,
      expire_all-idle more (ktimers_exit (expire_all k (armed 114))) refl
          ∙ ap ktimers_exit (after ∙ waits),
    )
