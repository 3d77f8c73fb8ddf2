-- ===== src/Usb/Link.antt =====
-- The life of the URB in laserp.c and mymouse_usb.c: opening, completion, closing, disconnection.
use l3_dd_trg.Base.{
  Bool-cases, ap, ◌∙◌, ◌≡◌, refl, Bool, true, false, Option, none, some, List, [], ◌∷◌, ◌&&◌, not,
  arith, if◌then◌else◌, ◌>>=◌, inl, inr,
}
use l3_dd_trg.Base.Int.{ℤ, pos, negsuc, enodev}
use l3_dd_trg.Base.Ledger.{Answer, succeeded, failed}
use l3_dd_trg.Usb.{is_terminal}

-- Whether the input device still has its driver data, whether that has its USB device and URB, and
-- whether the URB is with the USB core.
pub record Link : Type 0 where
  pub bound : Bool
  pub has_usbdev : Bool
  pub has_urb : Bool
  pub in_flight : Bool

abbrev pub is_ok : Answer → Bool
is_ok succeeded = true
is_ok (failed e) = false

-- `usb_laserpdl_open`, with the answer of `usb_submit_urb`.
unfoldable usb_laserpdl_open : Link → Answer → ℤ × Link
usb_laserpdl_open l submit =
    if not l.bound
    then (enodev, l)
    else if not l.has_usbdev
    then (enodev, l)
    else if not l.has_urb
    then (negsuc 0, l)
    else if is_ok submit
    then (pos 0, record l { in_flight = true })
    else (negsuc 0, l)

-- `usb_wimouse_open`: every error is -1.
unfoldable usb_wimouse_open : Link → Answer → ℤ × Link
usb_wimouse_open l submit =
    if l.bound && l.has_usbdev && l.has_urb && is_ok submit
    then (pos 0, record l { in_flight = true })
    else (negsuc 0, l)

-- `usb_laserpdl_close` and `usb_wimouse_close`; `none` is the use of driver data that is gone.
unfoldable usb_close : Link → Option Link
usb_close l = if l.bound then some (record l { in_flight = false }) else none

-- `dev_disconnect`.
unfoldable pub dev_disconnect : Link → Link
dev_disconnect l = record l { bound = false }

-- The URB completes, if it is in flight, and the handler submits it again unless the status ends it.
unfoldable complete : Link → ℤ → Answer → Link
complete l status submit =
    if l.in_flight then record l { in_flight = not (is_terminal status) && is_ok submit } else l

-- What happens to a driver after its probe.
pub data Happening : Type 0 where
  opened : Answer → Happening
  completed : ℤ → Answer → Happening
  closed disconnected : Happening

unfoldable pub react : Link → Happening → Option Link
unfolding usb_laserpdl_open usb_close dev_disconnect complete
react l (opened submit) = some (usb_laserpdl_open l submit).1
react l (completed status submit) = some (complete l status submit)
react l closed = usb_close l
react l disconnected = some (dev_disconnect l)

unfoldable pub react_all : Link → List Happening → Option Link
react_all l [] = some l
react_all l (h ∷ hs) = react l h >>= λ l'. react_all l' hs

abbrev Unopened : List Happening → Type 0
Unopened [] = Unit
Unopened (opened submit ∷ hs) = ⊥
Unopened (_ ∷ hs) = Unopened hs

-- A URB that is not with the USB core comes back to it by no completion, closing or disconnection:
-- only by opening.
idle_until_opened :
    (l : Link) (hs : List Happening) {l' : Link}
    → l.in_flight ≡ false
    → Unopened hs
    → react_all l hs ≡ some l'
    → l'.in_flight ≡ false
unfolding react_all react
idle_until_opened l [] h u e = ground arith
idle_until_opened l (opened submit ∷ hs) h u e = elim u [ ]
idle_until_opened l (completed status submit ∷ hs) h u e =
    idle_until_opened (complete l status submit) hs (ground arith) u e
idle_until_opened l (closed ∷ hs) {l' = l'} h u e = elim (Bool-cases l.bound) [
  | inl b ↦
      idle_until_opened (record l { bound = true; in_flight = false }) hs {l' = l'} refl u
        (rw b at e)
  | inr b ↦ cc (rw b at e)
]
idle_until_opened l (disconnected ∷ hs) h u e = idle_until_opened (dev_disconnect l) hs h u e

-- Completions with any status that is not one of the three of a shut down URB, and whose submissions
-- succeed.
abbrev AllResubmitted : List Happening → Type 0
AllResubmitted [] = Unit
AllResubmitted (completed status (succeeded) ∷ hs) =
    (is_terminal status ≡ false) × AllResubmitted hs
AllResubmitted (_ ∷ hs) = ⊥

-- Once submitted the URB stays with the USB core through any number of such completions, errors
-- among them.
polling_continues :
    (l : Link) (hs : List Happening)
    → l.in_flight ≡ true
    → AllResubmitted hs
    → react_all l hs ≡ some l
unfolding react_all react
polling_continues l [] h p = refl
polling_continues l (completed status succeeded ∷ hs) h p =
    let step : complete l status succeeded ≡ l = ground arith in
    ap (λ m. react_all m hs) step ∙ polling_continues l hs h p.1
polling_continues l (completed status (failed e) ∷ hs) h p = elim p [ ]
polling_continues l (opened submit ∷ hs) h p = elim p [ ]
polling_continues l (closed ∷ hs) h p = elim p [ ]
polling_continues l (disconnected ∷ hs) h p = elim p [ ]

-- Closing an input device after its USB device was disconnected uses driver data that is gone.
close-disconnect : (l : Link) → usb_close (dev_disconnect l) ≡ none
unfolding usb_close dev_disconnect
close-disconnect l = refl
