-- ===== src/Ds3231/Time.antt =====
-- `ds3231_rtc_read_time` and `ds3231_rtc_ioctl` of ds3231.c against the chip's registers.
use l3_dd_trg.Base.{
  ℕ, ◌+◌, ◌*◌, ◌/◌, ◌%◌, ◌<◌, ◌≡◌, ◌≢◌, Bool, true, false, [], ◌∷◌, ◌==◌, get_or, arith,
  if◌then◌else◌, Option, none, some,
}
use l3_dd_trg.Base.Int.{ℤ, pos, negsuc, is_zero, eio}
use l3_dd_trg.Ds3231.{Bus, ds3231_read_block_data}

-- `struct rtc_time`, the fields that the driver sets.
pub record RtcTime : Type 0 where
  pub tm_sec : ℕ
  pub tm_min : ℕ
  pub tm_hour : ℕ
  pub tm_wday : ℕ
  pub tm_mday : ℕ
  pub tm_mon : ℕ
  pub tm_year : ℕ

abbrev pub time_basereg : ℕ
time_basereg = 0

-- `x & 0xF`
abbrev low_nibble : ℕ → ℕ
low_nibble x = x % 16

-- What `linux/bcd.h` says of `bcd2bin`: two decimal digits, four bits each, become their number.
abbrev pub IsBcd2bin : (ℕ → ℕ) → Type 0
IsBcd2bin f = (tens ones : ℕ) → tens < 10 → ones < 10 → f (tens * 16 + ones) ≡ tens * 10 + ones

module _ (bcd2bin : ℕ → ℕ) where
  -- The result, and the caller's `rtc_time`, which held `tm`.
  unfoldable pub ds3231_rtc_read_time : Bus → RtcTime → ℤ × RtcTime
  unfolding ds3231_read_block_data
  ds3231_rtc_read_time bus tm =
      let (err, buf) = ds3231_read_block_data bus time_basereg 7 in
      if is_zero err
      then (
        pos 0,
        record {
          tm_sec = bcd2bin (low_nibble (get_or buf 0 0));
          tm_min = bcd2bin (low_nibble (get_or buf 1 0));
          tm_hour = bcd2bin (low_nibble (get_or buf 2 0));
          tm_wday = get_or buf 3 0 % 8;
          tm_mday = bcd2bin (low_nibble (get_or buf 4 0));
          tm_mon = bcd2bin (low_nibble (get_or buf 5 0));
          tm_year = bcd2bin (low_nibble (get_or buf 6 0));
        },
      )
      else (err, tm)

  -- -ENOIOCTLCMD
  abbrev pub enoioctlcmd : ℤ
  enoioctlcmd = negsuc 514

  -- The result, and what is copied to the user. `rd_time` is RTC_RD_TIME, `arg` whether the pointer
  -- is not NULL, and `tm` what the stack held.
  unfoldable pub ds3231_rtc_ioctl : Bus → RtcTime → Bool → ℕ → ℕ → Bool → ℤ × Option RtcTime
  unfolding ds3231_rtc_read_time
  ds3231_rtc_ioctl bus tm copy_fails rd_time cmd arg =
      if cmd == rd_time
      then (if arg
          then (if copy_fails then (eio, none) else (pos 0, some (ds3231_rtc_read_time bus tm).1))
          else (pos 0, none))
      else (enoioctlcmd, none)

-- A number below 100 in binary-coded decimal, as the chip holds it.
abbrev to_bcd : ℕ → ℕ
to_bcd n = n / 10 * 16 + n % 10

-- Of every number that the chip holds in binary-coded decimal only the last digit is read: at 12:34:56
-- the driver reports 2:4:6. The day of the week is right.
pub read_time-last-digits :
    (bcd2bin : ℕ → ℕ) (bus : Bus) (tm : RtcTime) (sec min hour day date month year : ℕ)
    → IsBcd2bin bcd2bin
    → bus.transfer time_basereg 7 ≡ (
      2,
      to_bcd sec ∷ to_bcd min ∷ to_bcd hour ∷ day ∷ to_bcd date ∷ to_bcd month ∷ to_bcd year ∷ [],
    )
    → day < 8
    → ds3231_rtc_read_time bcd2bin bus tm ≡ (
      pos 0,
      record {
        tm_sec = sec % 10;
        tm_min = min % 10;
        tm_hour = hour % 10;
        tm_wday = day;
        tm_mday = date % 10;
        tm_mon = month % 10;
        tm_year = year % 10;
      },
    )
unfolding ds3231_rtc_read_time
read_time-last-digits bcd2bin bus tm sec min hour day date month year bcd e d =
    rw (e, digit sec, digit min, digit hour, digit date, digit month, digit year) (ground arith)
  where
    digit : (n : ℕ) → bcd2bin (to_bcd n % 16) ≡ n % 10
    digit n =
        let nibble : to_bcd n % 16 ≡ 0 * 16 + n % 10 = omega arith in
        rw nibble (omega (arith, bcd 0 (n % 10) (omega arith) (omega arith)))

-- If the transfer fails, the ioctl still returns 0, and copies to the user what the stack held.
rtc_ioctl_copies_stack :
    (bcd2bin : ℕ → ℕ) (bus : Bus) (tm : RtcTime) (rd_time : ℕ)
    → (bus.transfer time_basereg 7).0 ≢ 2
    → ds3231_rtc_ioctl bcd2bin bus tm false rd_time rd_time true ≡ (pos 0, some tm)
unfolding ds3231_rtc_ioctl
rtc_ioctl_copies_stack bcd2bin bus tm rd_time h = ground arith
