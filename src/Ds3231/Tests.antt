-- ===== src/Ds3231/Tests.antt =====
-- The clock driver's theorems at concrete inputs.
use l3_dd_trg.Base.{ℕ, ◌+◌, ◌*◌, ◌%◌, ◌/◌, ◌≤◌, ◌≡◌, refl, length, [], ◌∷◌, some, arith}
use l3_dd_trg.Base.Int.{pos, negsuc, ◌*ℤ◌}
use l3_dd_trg.Ds3231.{Bus}
use l3_dd_trg.Ds3231.Temperature.{ds3231_read_temp, quarters}
use l3_dd_trg.Base.Decimal.{scan_int}
use l3_dd_trg.Ds3231.Show.{ds3231_temp_show, temp_show-datasheet}
use l3_dd_trg.Ds3231.Time.{RtcTime, IsBcd2bin, ds3231_rtc_read_time, read_time-last-digits}
use l3_dd_trg.Ds3231.Probe.{held_resource}

-- -10.25 degrees
abbrev cold : Bus
cold = record { transfer = λ reg n. (2, 0xF5 ∷ 0xC0 ∷ []) }

cold_value : ds3231_read_temp cold ≡ negsuc 10249
unfolding ds3231_read_temp
cold_value = refl

temp_show-datasheet_example :
    ((ds3231_temp_show cold).0 ≡ pos (length (ds3231_temp_show cold).1))
    × (length (ds3231_temp_show cold).1 + 1 ≤ 8)
    × (scan_int (ds3231_temp_show cold).1 ≡ some (quarters 0xF5 0xC0 *ℤ pos 250, []))
temp_show-datasheet_example = temp_show-datasheet cold 0xF5 0xC0 refl (omega arith) (omega arith)

abbrev bcd2bin : ℕ → ℕ
bcd2bin x = x % 16 + x / 16 * 10

bcd2bin-IsBcd2bin : IsBcd2bin bcd2bin
bcd2bin-IsBcd2bin tens ones h k = omega arith

-- Thursday, the 26th of November 2025, 12:34:56
abbrev clock : Bus
clock = record { transfer = λ reg n. (2, 0x56 ∷ 0x34 ∷ 0x12 ∷ 4 ∷ 0x26 ∷ 0x11 ∷ 0x25 ∷ []) }

abbrev zeros : RtcTime
zeros = record {
  tm_sec = 0;
  tm_min = 0;
  tm_hour = 0;
  tm_wday = 0;
  tm_mday = 0;
  tm_mon = 0;
  tm_year = 0;
}

read_time-last-digits_example : ds3231_rtc_read_time bcd2bin clock zeros ≡ (
  pos 0,
  record { tm_sec = 6; tm_min = 4; tm_hour = 2; tm_wday = 4; tm_mday = 6; tm_mon = 1; tm_year = 5 },
)
read_time-last-digits_example =
    read_time-last-digits bcd2bin clock zeros 56 34 12 4 26 11 25 bcd2bin-IsBcd2bin refl
      (omega arith)
