-- ===== src/Ds3231.antt =====
-- dt_platform_drv/rtc_ds3231/ds3231.c, the driver of the DS3231 clock chip on I2C: its temperature,
-- with its text, its time, its probe.
pub mod Temperature
pub mod Show
pub mod Time
pub mod Probe
pub mod Life
pub mod Uapp
mod Tests
use l3_dd_trg.Base.{ℕ, ◌+◌, ◌≡◌, Bool, true, false, List, [], ◌∷◌, ◌==◌, length, if◌then◌else◌}
use l3_dd_trg.Base.Int.{ℤ, pos, eio}

-- The chip as `i2c_transfer` answers: the number of messages transferred, and the bytes read, for a
-- register and a length.
pub record Bus : Type 0 where
  pub transfer : ℕ → ℕ → ℕ × List ℕ

-- `ds3231_read_block_data`: the error, and the buffer if there is none.
unfoldable pub ds3231_read_block_data : Bus → ℕ → ℕ → ℤ × List ℕ
ds3231_read_block_data bus reg length =
    let (count, buf) = bus.transfer reg length in if count == 2 then (pos 0, buf) else (eio, [])
