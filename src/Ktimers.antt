-- ===== src/Ktimers.antt =====
-- ktime_stuff/ktimers/ktimers.c: a kernel timer that sets itself again until its countdown is done.
pub mod Countdown
mod Tests
use l3_dd_trg.Base.{ℕ, zero, suc, ◌+◌, ◌-◌, ◌%◌, ◌^◌, Bool, true, false, ◌==◌, not, if◌then◌else◌}
use l3_dd_trg.Base.Int.{ℤ, is_zero}

-- `struct kdata`: whether the timer is pending, and `data`, an `int` as a pattern of 32 bits.
pub record Kdata : Type 0 where
  pub pending : Bool
  pub data_left : ℕ

-- `ding`: `mod_timer` makes the timer pending.
unfoldable pub ding : Kdata → Kdata
ding kd =
    let left = (kd.data_left + 2 ^ 32 - 1) % 2 ^ 32 in
    if left == 0
    then record kd { data_left = left }
    else record { pending = true; data_left = left }

-- `kd.data` at the start
abbrev countdown : ℕ
countdown = 114

-- `ktimers_init`, with what `mod_timer` returns.
unfoldable pub ktimers_init : ℤ → ℤ × Kdata
ktimers_init stat = (stat, record { pending = true; data_left = countdown })

-- `ktimers_exit`: `del_timer_sync` makes the timer idle.
unfoldable pub ktimers_exit : Kdata → Kdata
ktimers_exit kd = record kd { pending = false }

-- The time of the timer is up: a pending timer is idle again, and its function is called.
unfoldable pub expire : Kdata → Kdata
unfolding ding
expire kd = if kd.pending then ding (record kd { pending = false }) else kd

unfoldable pub expire_all : ℕ → Kdata → Kdata
unfolding expire
expire_all zero kd = kd
expire_all (suc n) kd = expire_all n (expire kd)
