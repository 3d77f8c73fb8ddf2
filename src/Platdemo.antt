-- ===== src/Platdemo.antt =====
-- dt_platform_drv/platform_drv_demo_oldstyle/platdemo.c: a platform device and its driver in one
-- module, on the ledger of resources, with the private data that the probe sets.
pub mod Life
pub mod Bound
mod Tests
use l3_dd_trg.Base.{
  ℕ, ◌≡◌, Bool, true, false, Option, none, some, List, [], ◌∷◌, arith, if◌then◌else◌,
}
use l3_dd_trg.Base.Int.{ℤ, pos, negsuc, enomem}
use l3_dd_trg.Base.Ledger.{
  Answer, succeeded, failed, Resource, Event, acquire, release, Outcome, done, ◌▸◌,
}

-- The private data, the platform device, the platform driver.
pub data Held : Type 0 where
  private_data device driver : Held

abbrev tag : Held → ℕ
tag private_data = 0
tag device = 1
tag driver = 2

pub tag_injective : (a b : Held) → tag a ≡ tag b → a ≡ b
tag_injective a b h = ground arith

instance abbrev pub held_resource : Resource Held
held_resource = record { tag = tag; tag_injective = tag_injective }

-- `struct platdemo_private`
pub record Private : Type 0 where
  pub txpktnum : ℤ
  pub rxpktnum : ℤ
  pub tx_bytes : ℤ
  pub rx_bytes : ℤ
  pub data_xform : ℕ

-- what `kzalloc` gives
abbrev pub zeroed : Private
zeroed = record {
  txpktnum = pos 0;
  rxpktnum = pos 0;
  tx_bytes = pos 0;
  rx_bytes = pos 0;
  data_xform = 0;
}

-- The kernel's answers during `platdev_init`.
pub record Kernel : Type 0 where
  pub kzalloc : Bool
  pub platform_add_devices : Answer
  pub platform_driver_register : Answer

-- `platdev_probe`; `none` is a private data that is not there.
unfoldable pub platdev_probe : Option Private → Option (ℤ × Private)
platdev_probe none = none
platdev_probe (some priv) = some (pos 0, record priv { data_xform = 100 })

abbrev out_fail_pad : List (Event Held)
out_fail_pad = release private_data ∷ []

abbrev out_fail_pdr : List (Event Held)
out_fail_pdr = release device ∷ out_fail_pad

unfoldable pub platdev_init : Kernel → Outcome Held
platdev_init k =
    if k.kzalloc
    then acquire private_data ▸ elim k.platform_add_devices [
      | failed e ↦ done (negsuc e) out_fail_pad
      | succeeded ↦ acquire device ▸ elim k.platform_driver_register [
        | failed e ↦ done (negsuc e) out_fail_pdr
        | succeeded ↦ acquire driver ▸ done (pos 0) []
      ]
    ]
    else done enomem []

unfoldable pub platdev_exit : List (Event Held)
platdev_exit = release driver ∷ release device ∷ release private_data ∷ []
