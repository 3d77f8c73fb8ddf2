-- ===== src/Ds3231/Life.antt =====
-- The operations of ds3231.c that are left: setting the time, the interrupt, the removal.
use l3_dd_trg.Base.{◌≡◌, refl, arith, some, List, [], ◌∷◌, ◌++◌}
use l3_dd_trg.Base.Int.{ℤ, pos}
use l3_dd_trg.Base.Ledger.{Answer, succeeded, failed, Event, release, replay}
use l3_dd_trg.Ds3231.{Bus}
use l3_dd_trg.Ds3231.Time.{RtcTime, ds3231_rtc_read_time}
use l3_dd_trg.Ds3231.Probe.{Held, held_resource, temp_file, rtc, Kernel, ds3231_probe}
use l3_dd_trg.Base.{ℕ}

-- The result, and the chip: nothing is sent to it.
unfoldable ds3231_rtc_set_time : Bus → RtcTime → ℤ × Bus
ds3231_rtc_set_time bus t = (pos 0, bus)

-- `irqreturn_t`
pub data IrqReturn : Type 0 where
  irq_none irq_handled : IrqReturn

-- `ds3231_handler` only logs.
unfoldable ds3231_handler : Bus → IrqReturn × Bus
ds3231_handler bus = (irq_handled, bus)

abbrev removed : Answer → List (Event Held)
removed succeeded = release temp_file ∷ []
removed (failed e) = []

-- `ds3231_remove` after a probe with these answers; `device_remove_file` does nothing for a file that
-- is not there.
unfoldable ds3231_remove : Kernel → ℤ × List (Event Held)
ds3231_remove k = (pos 0, removed k.create_file)

-- Setting the time succeeds, whatever the time, and what is read then is what would have been read
-- without it; so it is after an interrupt.
read_time-set_time :
    (bcd2bin : ℕ → ℕ) (bus : Bus) (t tm : RtcTime)
    → ((ds3231_rtc_set_time bus t).0 ≡ pos 0)
      × (ds3231_rtc_read_time bcd2bin (ds3231_rtc_set_time bus t).1 tm
          ≡ ds3231_rtc_read_time bcd2bin bus tm)
      × (ds3231_rtc_read_time bcd2bin (ds3231_handler bus).1 tm
          ≡ ds3231_rtc_read_time bcd2bin bus tm)
unfolding ds3231_rtc_set_time ds3231_handler
read_time-set_time bcd2bin bus t tm = (refl, refl, refl)

-- After a probe that returns 0 and the removal, only the registration with the clock framework is
-- left, which the kernel ends itself.
ds3231_remove-probe :
    (bus : Bus) (k : Kernel)
    → (ds3231_probe bus k).ret ≡ pos 0
    → replay ((ds3231_probe bus k).events ++ (ds3231_remove k).1) [] ≡ some (rtc ∷ [])
unfolding ds3231_probe ds3231_remove
ds3231_remove-probe bus k ok = ground arith
