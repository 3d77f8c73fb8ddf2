-- ===== src/Usb/Probe.antt =====
-- `dev_probe` and `dev_disconnect` of laserp.c and mymouse_usb.c on the ledger of resources.
use l3_dd_trg.Base.{
  ℕ, ◌≡◌, ◌≢◌, Bool, true, false, Option, none, some, List, [], ◌∷◌, ◌++◌, ◌==◌, not, arith,
  if◌then◌else◌,
}
use l3_dd_trg.Base.Int.{pos, negsuc, enodev, enomem}
use l3_dd_trg.Base.Ledger.{
  Answer, succeeded, failed, Resource, Event, acquire, release, Outcome, done, ◌▸◌, replay,
}

pub data Held : Type 0 where
  context input_dev coherent urb registration : Held

abbrev tag : Held → ℕ
tag context = 0
tag input_dev = 1
tag coherent = 2
tag urb = 3
tag registration = 4

pub tag_injective : (a b : Held) → tag a ≡ tag b → a ≡ b
tag_injective a b h = ground arith

instance abbrev pub held_resource : Resource Held
held_resource = record { tag = tag; tag_injective = tag_injective }

-- The interface that is probed, and the kernel's answers: whether each allocation succeeds.
pub record Kernel : Type 0 where
  pub num_endpoints : ℕ
  pub is_int_in : Bool
  pub kzalloc : Bool
  pub input_allocate : Bool
  pub alloc_coherent : Bool
  pub alloc_urb : Bool
  pub input_register : Answer

-- The functions that free do nothing with NULL.
abbrev free : Bool → Held → List (Event Held)
free true r = release r ∷ []
free false r = []

abbrev fail2 : Kernel → List (Event Held)
fail2 k = free k.input_allocate input_dev ++ free k.kzalloc context

abbrev fail3 : Kernel → List (Event Held)
fail3 k = free k.alloc_coherent coherent ++ fail2 k

abbrev fail4 : Kernel → List (Event Held)
fail4 k = free k.alloc_urb urb ++ fail3 k

-- From `usb_alloc_coherent` on; the two drivers do the same, from the labels on too.
unfoldable probe_buffers : Kernel → Outcome Held
probe_buffers k =
    if k.alloc_coherent
    then acquire coherent
      ▸ (if k.alloc_urb
          then acquire urb ▸ elim k.input_register [
            | succeeded ↦ done (pos 0) (acquire registration ∷ [])
            | failed e ↦ done (negsuc e) (fail4 k)
          ]
          else done enomem (fail4 k))
    else done enomem (fail3 k)

-- `dev_probe` of laserp.c.
unfoldable laser_probe : Kernel → Outcome Held
unfolding probe_buffers
laser_probe k =
    if not (k.num_endpoints == 1)
    then done enodev []
    else if not k.is_int_in
    then done enodev []
    else if k.kzalloc
    then acquire context
      ▸ (if k.input_allocate then acquire input_dev ▸ probe_buffers k else done enomem (fail2 k))
    else done enomem []

-- `dev_probe` of mymouse_usb.c, which does not look at what `kzalloc` returns; `none` is a write
-- through NULL.
unfoldable mouse_probe : Kernel → Option (Outcome Held)
unfolding probe_buffers
mouse_probe k =
    if not (k.num_endpoints == 1)
    then some (done enodev [])
    else if not k.is_int_in
    then some (done enodev [])
    else if k.kzalloc
    then some (
        acquire context
        ▸ (if k.input_allocate then acquire input_dev ▸ probe_buffers k else done enomem (fail2 k)))
    else if k.input_allocate
    then none
    else some (done enomem [])

abbrev all_held : List Held
all_held = registration ∷ urb ∷ coherent ∷ input_dev ∷ context ∷ []

-- The laser's probe returns 0 and holds everything, or an error and holds nothing; nothing is freed
-- that is not held.
laser_probe-ledger :
    (k : Kernel)
    → ((laser_probe k).ret ≡ pos 0 → replay (laser_probe k).events [] ≡ some all_held)
      × ((laser_probe k).ret ≢ pos 0 → replay (laser_probe k).events [] ≡ some [])
unfolding laser_probe
laser_probe-ledger k = (ground arith, ground arith)

-- Where its first allocation succeeds, the mouse's probe does not fault, and returns 0 and holds
-- everything, or an error and holds nothing. Where only that allocation fails, on an interface that
-- it accepts, the probe writes through NULL.
mouse_probe-ledger :
    (k : Kernel)
    → (k.kzalloc ≡ true
        → (o : Outcome Held) × (mouse_probe k ≡ some o)
          × (o.ret ≡ pos 0 → replay o.events [] ≡ some all_held)
          × (o.ret ≢ pos 0 → replay o.events [] ≡ some []))
      × (k.kzalloc ≡ false
          → k.input_allocate ≡ true
          → k.num_endpoints ≡ 1
          → k.is_int_in ≡ true
          → mouse_probe k ≡ none)
unfolding mouse_probe laser_probe
mouse_probe-ledger k =
    ((λ h. (laser_probe k, ground arith, ground arith, ground arith)), (λ a b c d. ground arith))
