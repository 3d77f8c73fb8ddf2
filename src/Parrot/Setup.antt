-- ===== src/Parrot/Setup.antt =====
-- `parrot_module_init` and `parrot_module_exit` of parrot_driver.c on the ledger of resources, and
-- the two sysfs files that show the indices.
use l3_dd_trg.Base.{ℕ, ◌≡◌, ◌≢◌, Bool, none, some, List, [], ◌∷◌, ◌++◌, arith, if◌then◌else◌}
use l3_dd_trg.Base.Int.{pos, negsuc, eperm}
use l3_dd_trg.Base.Ledger.{
  Answer, succeeded, failed, Resource, Event, acquire, release, Outcome, done, ◌▸◌, replay,
}

-- The major number, the class, the device, the four sysfs files.
pub data Held : Type 0 where
  major device_class device fifo reset status_read status_written : Held

abbrev tag : Held → ℕ
tag major = 0
tag device_class = 1
tag device = 2
tag fifo = 3
tag reset = 4
tag status_read = 5
tag status_written = 6

pub tag_injective : (a b : Held) → tag a ≡ tag b → a ≡ b
tag_injective a b h = ground arith

instance abbrev pub held_resource : Resource Held
held_resource = record { tag = tag; tag_injective = tag_injective }

-- The kernel's answers during the setup; the last four are those of `device_create_file`.
pub record Kernel : Type 0 where
  pub register_chrdev : Answer
  pub class_create : Answer
  pub device_create : Answer
  pub fifo_made : Bool
  pub reset_made : Bool
  pub status_read_made : Bool
  pub status_written_made : Bool

abbrev failed_classreg : List (Event Held)
failed_classreg = release major ∷ []

-- `class_destroy` unregisters the class, as `class_unregister` before it did.
abbrev failed_devreg : List (Event Held)
failed_devreg = release device_class ∷ release device_class ∷ failed_classreg

-- a sysfs file that may be there
abbrev file : Bool → Event Held → List (Event Held)
file made e = if made then e ∷ [] else []

-- `retval` is set on every error path, and -1 returned.
unfoldable parrot_module_init : Kernel → Outcome Held
parrot_module_init k = elim k.register_chrdev [
  | failed e ↦ done (negsuc 0) []
  | succeeded ↦ acquire major ▸ elim k.class_create [
    | failed e ↦ done (negsuc 0) failed_classreg
    | succeeded ↦ acquire device_class ▸ elim k.device_create [
      | failed e ↦ done (negsuc 0) failed_devreg
      | succeeded ↦
          acquire device
          ▸ done (pos 0) (
              file k.fifo_made (acquire fifo)
              ++ file k.reset_made (acquire reset)
              ++ file k.status_read_made (acquire status_read)
              ++ file k.status_written_made (acquire status_written))
    ]
  ]
]

-- `parrot_module_exit`, given how the load went; `device_remove_file` does nothing for a file that
-- is not there.
unfoldable parrot_module_exit : Kernel → List (Event Held)
parrot_module_exit k =
    file k.fifo_made (release fifo)
    ++ file k.reset_made (release reset)
    ++ file k.status_read_made (release status_read)
    ++ file k.status_written_made (release status_written)
    ++ release device ∷ failed_devreg

-- A load that fails returns -1; up to the class it holds nothing then, and without the device it has
-- released the class twice. After a load that returns 0, whichever sysfs files could be made, the
-- teardown releases the class twice.
parrot_module_init_lem :
    (k : Kernel)
    → ((parrot_module_init k).ret ≢ pos 0
        → ((parrot_module_init k).ret ≡ eperm)
          × (replay (parrot_module_init k).events [] ≡ (elim k.register_chrdev [
            | failed e ↦ some []
            | succeeded ↦ elim k.class_create [ failed e ↦ some [] | succeeded ↦ none ]
          ])))
      × ((parrot_module_init k).ret ≡ pos 0
          → replay ((parrot_module_init k).events ++ parrot_module_exit k) [] ≡ none)
unfolding parrot_module_init parrot_module_exit
parrot_module_init_lem k = (ground arith, ground arith)
