-- ===== src/Ds3231/Show.antt =====
-- `ds3231_temp_show` of ds3231.c: the text that a user reads.
use l3_dd_trg.Base.{
  ℕ, suc, ◌+◌, ◌≡◌, ◌≤◌, ◌<◌, ap, sym, ◌∙◌, some, List, [], ◌∷◌, length, take, take_all, append-nil,
  arith,
}
use l3_dd_trg.Base.Int.{ℤ, pos, negsuc, ◌*ℤ◌, ◌≤ℤ◌}
use l3_dd_trg.Base.Decimal.{print_int, scan_int, scan_int-print_int, length-print_nat}
use l3_dd_trg.Ds3231.{Bus}
use l3_dd_trg.Ds3231.Temperature.{tempr_msb, ds3231_read_temp, quarters, ds3231_read_temp-datasheet}

-- `snprintf(buf, 8, "%ld", milliC)`: the length of the whole text, and the text in the buffer, which
-- is cut so that its NUL fits.
unfoldable pub ds3231_temp_show : Bus → ℤ × List ℕ
unfolding print_int
ds3231_temp_show bus =
    let text = print_int (ds3231_read_temp bus) in (pos (length text), take 7 text)

length-print_int : (z : ℤ) → negsuc 999998 ≤ℤ z → z ≤ℤ pos 999999 → length (print_int z) ≤ 7
unfolding print_int
length-print_int (pos n) low high = omega (arith, length-print_nat 5 n)
length-print_int (negsuc n) low high = omega (arith, length-print_nat 5 (suc n))

-- A transfer that succeeds with two bytes: the text fits the buffer of eight bytes with its NUL, its
-- length is the result, and read as a number it is the temperature that the data sheet means, in
-- thousandths of a degree.
pub temp_show-datasheet :
    (bus : Bus) (high low : ℕ)
    → bus.transfer tempr_msb 2 ≡ (2, high ∷ low ∷ [])
    → high < 256
    → low < 256
    → ((ds3231_temp_show bus).0 ≡ pos (length (ds3231_temp_show bus).1))
      × (length (ds3231_temp_show bus).1 + 1 ≤ 8)
      × (scan_int (ds3231_temp_show bus).1 ≡ some (quarters high low *ℤ pos 250, []))
unfolding ds3231_temp_show
temp_show-datasheet bus high low e h l =
    let sheet = ds3231_read_temp-datasheet bus high low e h l in
    let text = print_int (ds3231_read_temp bus) in
    let short : length text ≤ 7 =
      length-print_int (ds3231_read_temp bus) (omega (arith, sheet.1)) (omega (arith, sheet.2)) in
    let whole : take 7 text ≡ text = take_all 7 text short in
    let back = scan_int-print_int (ds3231_read_temp bus) [] tt in
    (
      ap (λ t. pos (length t)) (sym whole),
      omega (arith, ap length whole, short),
      ap scan_int whole
          ∙ ap scan_int (sym (append-nil text))
          ∙ back
          ∙ ap (λ z. some (z, [])) sheet.0,
    )
