-- ===== src/Usb/Irq.antt =====
-- The completion handlers of laserp.c and mymouse_usb.c.
use l3_dd_trg.Base.{
  ℕ, ◌+◌, ◌/◌, ◌%◌, ◌≡◌, ◌≢◌, ◌⊎◌, ◌↔◌, true, false, List, [], ◌∷◌, ◌==◌, ◌||◌, get_or, arith,
  if◌then◌else◌,
}
use l3_dd_trg.Base.Int.{ℤ, pos, enoent, econnreset, eshutdown}
use l3_dd_trg.Usb.{Call, submit_urb, sync, report_key, report_rel, is_terminal, signed8}

-- The module parameters of laserp.c: the key for each of the four buttons.
pub record Buttons : Type 0 where
  pub top_left : ℕ
  pub top_right : ℕ
  pub bottom_left : ℕ
  pub bottom_right : ℕ

-- `usb_laserpdl_irq`, for the URB's status and the eight bytes of its buffer.
unfoldable usb_laserpdl_irq : Buttons → ℤ → List ℕ → List Call
usb_laserpdl_irq keys status buf =
    let b = get_or buf 3 0 in
    if is_terminal status
    then []
    else submit_urb
      ∷ report_key keys.top_left (b == 0x4b)
      ∷ report_key keys.top_right (b == 0x4e)
      ∷ report_key keys.bottom_left (b == 0x3e || b == 0x29)
      ∷ report_key keys.bottom_right (b == 0x5)
      ∷ sync
      ∷ []

-- The event codes of `input-event-codes.h`, which the mouse reports.
pub record MouseCodes : Type 0 where
  pub btn_left : ℕ
  pub btn_right : ℕ
  pub btn_middle : ℕ
  pub key_up : ℕ
  pub key_down : ℕ
  pub rel_x : ℕ
  pub rel_y : ℕ

-- `usb_wimouse_irq`.
unfoldable pub usb_wimouse_irq : MouseCodes → ℤ → List ℕ → List Call
usb_wimouse_irq c status buf =
    let at = get_or buf in
    if is_terminal status
    then []
    else submit_urb
      ∷ report_key c.btn_left (at 1 0 % 2 == 1)
      ∷ report_key c.btn_right (at 1 0 / 2 % 2 == 1)
      ∷ report_key c.btn_middle (at 1 0 / 4 % 2 == 1)
      ∷ report_key c.key_up (at 5 0 == 0x1)
      ∷ report_key c.key_down (at 5 0 == 0xff)
      ∷ report_rel c.rel_x (signed8 (at 2 0))
      ∷ report_rel c.rel_y (signed8 (at 3 0))
      ∷ sync
      ∷ []

-- The keys that a list of calls reports as pressed.
abbrev pressed : List Call → List ℕ
pressed [] = []
pressed (report_key k true ∷ cs) = k ∷ pressed cs
pressed (_ ∷ cs) = pressed cs

-- How often the URB is submitted.
abbrev pub submissions : List Call → ℕ
submissions [] = 0
submissions (submit_urb ∷ cs) = 1 + submissions cs
submissions (_ ∷ cs) = submissions cs

-- What the fourth byte means.
abbrev button : Buttons → ℕ → List ℕ
button keys b =
    if b == 0x4b
    then keys.top_left ∷ []
    else if b == 0x4e
    then keys.top_right ∷ []
    else if b == 0x3e || b == 0x29
    then keys.bottom_left ∷ []
    else if b == 0x5
    then keys.bottom_right ∷ []
    else []

-- The handler is silent exactly for the three statuses of a URB that is shut down; for every other
-- status it submits the URB once and reports as pressed the one key of the button that the fourth
-- byte names, or none.
laser_irq_reports :
    (keys : Buttons) (status : ℤ) (buf : List ℕ)
    → let calls = usb_laserpdl_irq keys status buf in
      ((calls ≡ []) ↔ ((status ≡ econnreset) ⊎ ((status ≡ enoent) ⊎ (status ≡ eshutdown))))
      × (calls ≢ [] → (submissions calls ≡ 1) × (pressed calls ≡ button keys (get_or buf 3 0)))
unfolding usb_laserpdl_irq
laser_irq_reports keys status buf = ((ground arith, ground arith), ground arith)

-- An error that is none of these three statuses is handled as a success: the same calls are made
-- from whatever the buffer holds.
laser_irq_error :
    (keys : Buttons) (status : ℤ) (buf : List ℕ)
    → is_terminal status ≡ false
    → usb_laserpdl_irq keys status buf ≡ usb_laserpdl_irq keys (pos 0) buf
unfolding usb_laserpdl_irq
laser_irq_error keys status buf h = rw h
