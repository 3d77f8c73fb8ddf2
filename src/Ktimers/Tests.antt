-- ===== src/Ktimers/Tests.antt =====
-- The timer's theorem at a concrete number of expiries.
use l3_dd_trg.Base.{◌≡◌, ◌-◌, false, ltb}
use l3_dd_trg.Base.Int.{pos}
use l3_dd_trg.Ktimers.{expire_all, ktimers_init, ktimers_exit}
use l3_dd_trg.Ktimers.Countdown.{ktimers_countdown}

ktimers_countdown_example :
    (expire_all 113 (ktimers_init (pos 0)).1
      ≡ record { pending = ltb 113 114; data_left = 114 - 113 })
    × (expire_all 2 (ktimers_exit (expire_all 113 (ktimers_init (pos 0)).1))
        ≡ record { pending = false; data_left = 114 - 113 })
ktimers_countdown_example = ktimers_countdown (pos 0) 113 2
