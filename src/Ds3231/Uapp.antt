-- ===== src/Ds3231/Uapp.antt =====
-- dt_platform_drv/rtc_ds3231/uapp.c, which asks the driver for the time.
use l3_dd_trg.Base.{
  ℕ, ◌≤◌, ◌≡◌, ◌≢◌, ◌↔◌, Bool, true, false, not, Option, none, some, ltb, arith, if◌then◌else◌,
}
use l3_dd_trg.Base.Int.{is_negative}
use l3_dd_trg.Ds3231.{Bus}
use l3_dd_trg.Ds3231.Time.{RtcTime, time_basereg, ds3231_rtc_read_time, ds3231_rtc_ioctl}

module _ (bcd2bin : ℕ → ℕ) where
  -- `main`: the exit status, and what the driver put into `tm`. `argc`, whether the device file could
  -- be opened, the chip, what the kernel's stack held, whether the copy fails, RTC_RD_TIME.
  unfoldable pub uapp : ℕ → Bool → Bus → RtcTime → Bool → ℕ → ℕ × Option RtcTime
  unfolding ds3231_rtc_ioctl
  uapp argc opened bus stack copy_fails rd_time =
      if ltb argc 2
      then (1, none)
      else if not opened
      then (1, none)
      else (let (ret, shown) = ds3231_rtc_ioctl bcd2bin bus stack copy_fails rd_time rd_time true in
          if is_negative ret then (1, none) else (0, shown))

  -- With a device file that can be opened: the program fails exactly if the copy to it fails. If not,
  -- it has the time that the driver read; but where the transfer from the chip failed, it has what the
  -- kernel's stack held, and cannot tell.
  pub uapp_lem :
      (argc : ℕ) (bus : Bus) (stack : RtcTime) (copy_fails : Bool) (rd_time : ℕ)
      → 2 ≤ argc
      → ((uapp argc true bus stack copy_fails rd_time).0 ≡ 1 ↔ copy_fails ≡ true)
        × (copy_fails ≡ false
            → uapp argc true bus stack copy_fails rd_time
              ≡ (0, some (ds3231_rtc_read_time bcd2bin bus stack).1))
        × (copy_fails ≡ false
            → (bus.transfer time_basereg 7).0 ≢ 2
            → uapp argc true bus stack copy_fails rd_time ≡ (0, some stack))
  unfolding uapp ds3231_rtc_ioctl
  uapp_lem argc bus stack copy_fails rd_time h =
      ((ground arith, ground arith), (λ c. ground arith), (λ c failed. ground arith))
