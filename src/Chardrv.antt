-- ===== src/Chardrv.antt =====
-- 2.6k_chardrv_template/chardrv_template.c: a template that registers a range of character devices,
-- on the ledger of resources.
pub mod Registration
mod Tests
use l3_dd_trg.Base.{
  ℕ, zero, suc, ◌+◌, ◌*◌, ◌≡◌, Bool, true, false, List, [], ◌∷◌, ◌++◌, ◌==◌, arith, if◌then◌else◌,
}
use l3_dd_trg.Base.Int.{ℤ, pos, negsuc, enomem, enxio}
use l3_dd_trg.Base.Ledger.{
  Answer, succeeded, failed, Resource, Event, acquire, release, Outcome, done, ◌▸◌,
}

-- DEV_COUNT
abbrev dev_count : ℕ
dev_count = 2

-- The region of device numbers, the memory of the structures, the class; the character devices and
-- the device nodes.
pub data Held : Type 0 where
  region memory device_class : Held
  cdev node : ℕ → Held

abbrev tag : Held → ℕ
tag region = 0
tag memory = 1
tag device_class = 2
tag (cdev i) = 2 * i + 3
tag (node i) = 2 * i + 4

pub tag_injective : (a b : Held) → tag a ≡ tag b → a ≡ b
tag_injective a b h = ground arith

instance abbrev pub held_resource : Resource Held
held_resource = record { tag = tag; tag_injective = tag_injective }

-- The kernel's answers; `class_create` and `device_create` give a pointer or an error pointer, never
-- NULL, and `device_create` refuses an error pointer for its class.
pub record Kernel : Type 0 where
  pub alloc_chrdev_region : Answer
  pub kzalloc : Bool
  pub cdev_add : ℕ → Answer
  pub class_create : Bool
  pub device_create : ℕ → Bool

-- `cdrv_open`: only the minor number 0 is given operations.
unfoldable cdrv_open : ℕ → ℤ
cdrv_open minor = if minor == 0 then pos 0 else enxio

-- The loop over the nodes, from the i-th on: an error pointer is not NULL.
create_nodes : Kernel → ℕ → ℕ → List (Event Held)
create_nodes k zero i = []
create_nodes k (suc left) i =
    let rest = create_nodes k left (suc i) in
    if k.device_create i then acquire (node i) ∷ rest else rest

-- `class_create` and the loop; `res` is 0 after the loop before.
create_devices : Kernel → Outcome Held
unfolding create_nodes
create_devices k =
    done (pos 0) (if k.class_create then acquire device_class ∷ create_nodes k dev_count 0 else [])

-- The loop over the character devices.
add_cdevs : Kernel → ℕ → ℕ → Outcome Held
unfolding create_devices
add_cdevs k zero i = create_devices k
add_cdevs k (suc left) i = elim (k.cdev_add i) [
  | failed e ↦ done (negsuc e) []
  | succeeded ↦ acquire (cdev i) ▸ add_cdevs k left (suc i)
]

unfoldable pub chardev_registration : Kernel → Outcome Held
unfolding add_cdevs
chardev_registration k = elim k.alloc_chrdev_region [
  | failed e ↦ done (negsuc e) []
  | succeeded ↦
      acquire region
      ▸ (if k.kzalloc then acquire memory ▸ add_cdevs k dev_count 0 else done enomem [])
]

-- The loop of the teardown; `device_destroy` does nothing for a node that is not there.
delete_devices : Kernel → ℕ → ℕ → List (Event Held)
delete_devices k zero i = []
delete_devices k (suc left) i =
    let rest = delete_devices k left (suc i) in
    release (cdev i)
    ∷ (if k.class_create
        then (if k.device_create i then release (node i) ∷ rest else rest)
        else rest)

-- `cdrv_cleanup_module`, given how the load went; `class_destroy` ignores an error pointer.
unfoldable pub cdrv_cleanup_module : Kernel → List (Event Held)
unfolding delete_devices
cdrv_cleanup_module k =
    delete_devices k dev_count 0
    ++ (if k.class_create then release device_class ∷ [] else [])
    ++ release memory ∷ release region ∷ []
