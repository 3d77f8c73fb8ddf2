-- ===== src/Usb.antt =====
-- The two USB input drivers, usb/laser_prsnt_input_usb/laserp.c and usb/mymouse_usb_input/mymouse_usb.c:
-- what they share.
pub mod Irq
pub mod Link
pub mod Probe
pub mod Names
mod Tests
use l3_dd_trg.Base.{
  ℕ, ◌+◌, ◌-◌, Bool, true, false, List, [], ◌∷◌, ◌==◌, ◌&&◌, ◌||◌, ltb, if◌then◌else◌,
}
use l3_dd_trg.Base.Int.{ℤ, pos, negsuc, pos_part, neg_part, enoent, econnreset, eshutdown}

-- The calls of a completion handler into the USB core and the input core.
pub data Call : Type 0 where
  submit_urb sync : Call
  report_key : ℕ → Bool → Call
  report_rel : ℕ → ℤ → Call

abbrev pub same : ℤ → ℤ → Bool
same a b = pos_part a == pos_part b && neg_part a == neg_part b

-- The statuses for which the handlers return at once.
abbrev pub is_terminal : ℤ → Bool
is_terminal status = same status econnreset || same status enoent || same status eshutdown

-- A `signed char`, from its byte.
abbrev pub signed8 : ℕ → ℤ
signed8 b = if ltb b 128 then pos b else negsuc (255 - b)
