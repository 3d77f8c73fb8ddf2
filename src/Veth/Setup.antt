-- ===== src/Veth/Setup.antt =====
-- `vnet_init` and `vnet_exit` of veth_netdrv.c on the ledger of resources.
use l3_dd_trg.Base.{ℕ, ◌≡◌, ◌≢◌, none, some, List, [], ◌∷◌, ◌++◌, Bool, arith, if◌then◌else◌}
use l3_dd_trg.Base.Int.{pos, negsuc, enomem}
use l3_dd_trg.Base.Ledger.{
  Answer, succeeded, failed, Resource, Event, acquire, release, Outcome, done, ◌▸◌, replay,
}

-- The driver's context, its platform device, its platform driver; the network device and its
-- registration, which the probe makes.
pub data Held : Type 0 where
  context device driver netdev registration : Held

abbrev tag : Held → ℕ
tag context = 0
tag device = 1
tag driver = 2
tag netdev = 3
tag registration = 4

pub tag_injective : (a b : Held) → tag a ≡ tag b → a ≡ b
tag_injective a b h = ground arith

instance abbrev pub held_resource : Resource Held
held_resource = record { tag = tag; tag_injective = tag_injective }

-- The kernel's answers during `vnet_init`.
pub record Kernel : Type 0 where
  pub kzalloc : Bool
  pub platform_add_devices : Answer
  pub platform_driver_register : Answer

abbrev out_fail_pad : List (Event Held)
out_fail_pad = release context ∷ []

abbrev out_fail_pdr : List (Event Held)
out_fail_pdr = release driver ∷ release device ∷ out_fail_pad

unfoldable pub vnet_init : Kernel → Outcome Held
vnet_init k =
    if k.kzalloc
    then acquire context ▸ elim k.platform_add_devices [
      | failed e ↦ done (negsuc e) out_fail_pad
      | succeeded ↦ acquire device ▸ elim k.platform_driver_register [
        | failed e ↦ done (negsuc e) out_fail_pdr
        | succeeded ↦ acquire driver ▸ done (pos 0) []
      ]
    ]
    else done enomem []

unfoldable pub vnet_exit : List (Event Held)
vnet_exit = release driver ∷ release device ∷ release context ∷ []

-- After a load that returns 0 the teardown releases everything. A load whose registration of the
-- driver fails unregisters the driver that was not registered; every other load that fails holds
-- nothing.
vnet_init_lem :
    (k : Kernel)
    → ((vnet_init k).ret ≡ pos 0 → replay ((vnet_init k).events ++ vnet_exit) [] ≡ some [])
      × ((vnet_init k).ret ≢ pos 0
          → replay (vnet_init k).events [] ≡ (
              if k.kzalloc
              then elim k.platform_add_devices [ succeeded ↦ none | failed e ↦ some [] ]
              else some []))
unfolding vnet_init vnet_exit
vnet_init_lem k = (ground arith, ground arith)
