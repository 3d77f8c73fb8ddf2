-- ===== src/Vmouse.antt =====
-- input_drv_virtual_mouse/input_drv_mouse.c: the setup and teardown of the virtual mouse, on the
-- ledger of resources; its reports are in Reports.
pub mod Setup
pub mod Reports
mod Tests
use l3_dd_trg.Base.{ℕ, ◌≡◌, Bool, true, false, List, [], ◌∷◌, arith, if◌then◌else◌}
use l3_dd_trg.Base.Int.{pos, negsuc, einval}
use l3_dd_trg.Base.Ledger.{
  Answer, succeeded, failed, Resource, Event, acquire, release, Outcome, done, ◌▸◌,
}

-- The platform device, the sysfs file, the input device and its registration.
pub data Held : Type 0 where
  platdev sysfs_file input_dev registration : Held

abbrev tag : Held → ℕ
tag platdev = 0
tag sysfs_file = 1
tag input_dev = 2
tag registration = 3

pub tag_injective : (a b : Held) → tag a ≡ tag b → a ≡ b
tag_injective a b h = ground arith

instance abbrev pub held_resource : Resource Held
held_resource = record { tag = tag; tag_injective = tag_injective }

-- The build has sysfs; and the kernel's answers during the setup.
pub record Kernel : Type 0 where
  pub has_sysfs : Bool
  pub platform_register : Answer
  pub create_file : Answer
  pub input_allocate : Bool
  pub input_register : Answer

abbrev out2 : List (Event Held)
out2 = release platdev ∷ []

abbrev out3 : List (Event Held)
out3 = release sysfs_file ∷ out2

-- `stat` is 0 where `input_allocate_device` fails.
unfoldable pub input_drv_vmouse_init : Kernel → Outcome Held
input_drv_vmouse_init k =
    if k.has_sysfs
    then elim k.platform_register [
      | failed e ↦ done (negsuc e) []
      | succeeded ↦ acquire platdev ▸ elim k.create_file [
        | failed e ↦ done (negsuc e) out2
        | succeeded ↦
            acquire sysfs_file
            ▸ (if k.input_allocate
                then acquire input_dev ▸ elim k.input_register [
                  | failed e ↦ done (negsuc e) (release input_dev ∷ out3)
                  | succeeded ↦ done (pos 0) (acquire registration ∷ [])
                ]
                else done (pos 0) out3)
      ]
    ]
    else done einval []

-- `input_unregister_device` frees the input device too.
unfoldable pub input_drv_vmouse_cleanup : List (Event Held)
input_drv_vmouse_cleanup =
    release registration ∷ release input_dev ∷ release sysfs_file ∷ release platdev ∷ []
