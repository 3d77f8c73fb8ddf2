-- ===== src/Ds3231/Temperature.antt =====
-- `ds3231_read_temp` and `ds3231_temp_show` of ds3231.c against the chip's data sheet.
use l3_dd_trg.Base.{
  ◌≢◌, ℕ, ◌+◌, ◌-◌, ◌*◌, ◌/◌, ◌%◌, ◌^◌, ◌<◌, ◌≡◌, [], ◌∷◌, ltb, get_or, arith, if◌then◌else◌,
}
use l3_dd_trg.Base.Int.{ℤ, pos, negsuc, is_zero, ◌*ℤ◌, ◌≤ℤ◌, eio, sub_ℕ}
use l3_dd_trg.Ds3231.{Bus, ds3231_read_block_data}

-- TEMPR_MSB
abbrev pub tempr_msb : ℕ
tempr_msb = 0x11

-- `temp = (buf[0] << 8) | buf[1]` in an `s16`; the two bytes have no bit in common.
unfoldable raw_temp : ℕ → ℕ → ℤ
raw_temp high low =
    let w = (high * 256 + low) % 2 ^ 16 in if ltb w (2 ^ 15) then pos w else negsuc (2 ^ 16 - w - 1)

-- `>>` on a signed number keeps its sign: it rounds down.
unfoldable shift_right_6 : ℤ → ℤ
shift_right_6 (pos n) = pos (n / 64)
shift_right_6 (negsuc n) = negsuc (n / 64)

-- `ds3231_read_temp`, in thousandths of a degree, or an error.
unfoldable pub ds3231_read_temp : Bus → ℤ
unfolding ds3231_read_block_data raw_temp shift_right_6 ◌*ℤ◌
ds3231_read_temp bus =
    let (err, buf) = ds3231_read_block_data bus tempr_msb 2 in
    if is_zero err
    then shift_right_6 (raw_temp (get_or buf 0 0) (get_or buf 1 0)) *ℤ pos 250
    else err

-- The data sheet's reading: the byte at 11h is the integer part in two's complement, and the upper
-- two bits of the byte at 12h count quarters of a degree. Here in quarters.
abbrev pub quarters : ℕ → ℕ → ℤ
quarters high low = sub_ℕ (high * 4 + low / 64) (if ltb high 128 then 0 else 1024)

-- A transfer that succeeds with two bytes gives the temperature that the data sheet means, in
-- thousandths of a degree, and it lies from -128000 to 127750.
pub ds3231_read_temp-datasheet :
    (bus : Bus) (high low : ℕ)
    → bus.transfer tempr_msb 2 ≡ (2, high ∷ low ∷ [])
    → high < 256
    → low < 256
    → (ds3231_read_temp bus ≡ quarters high low *ℤ pos 250)
      × (negsuc 127999 ≤ℤ ds3231_read_temp bus)
      × (ds3231_read_temp bus ≤ℤ pos 127750)
unfolding ds3231_read_temp
ds3231_read_temp-datasheet bus high low e h l = rw e (ground arith)

-- A transfer that fails is shown as if it were a temperature: -EIO, five thousandths below zero.
ds3231_read_temp_fails : (bus : Bus) → (bus.transfer tempr_msb 2).0 ≢ 2 → ds3231_read_temp bus ≡ eio
unfolding ds3231_read_temp
ds3231_read_temp_fails bus h = ground arith
