-- ===== src/Dtdemo.antt =====
-- dt_platform_drv/dtdemo_platformdrv_via_dtb/dtdemo_platdrv.c: a driver whose probe reads two
-- properties of its node in the device tree.
use l3_dd_trg.Base.{◌≡◌, ◌≢◌, ◌↔◌, Bool, true, false, Option, none, some, if◌then◌else◌, arith}
use l3_dd_trg.Base.Int.{ℤ, pos, negsuc, eperm, einval}
use l3_dd_trg.Base.Ledger.{Answer, succeeded, failed}

-- A node of the device tree: whether it has `aproperty`, and what `of_property_read_s32` answers for
-- `my_value`.
pub record Node : Type 0 where
  pub has_aproperty : Bool
  pub my_value : Answer

-- `dtdemo_platdev_probe`, with the device's node, if there is one.
unfoldable dtdemo_platdev_probe : Option Node → ℤ
dtdemo_platdev_probe none = einval
dtdemo_platdev_probe (some n) =
    if n.has_aproperty then (elim n.my_value [ failed e ↦ eperm | succeeded ↦ pos 0 ]) else eperm

-- `dtdemo_platdrv_init`, with what `platform_driver_register` answers: the result, and whether the
-- driver is registered.
unfoldable dtdemo_platdrv_init : Answer → ℤ × Bool
dtdemo_platdrv_init succeeded = (pos 0, true)
dtdemo_platdrv_init (failed e) = (negsuc e, false)

-- `dtdemo_platdrv_cleanup`: whether the driver is registered, before and after.
unfoldable dtdemo_platdrv_cleanup : Bool → Bool
dtdemo_platdrv_cleanup registered = false

-- `dtdemo_platdev_remove`, for kernels before 6.11
unfoldable dtdemo_platdev_remove : ℤ
dtdemo_platdev_remove = pos 0

-- The driver is registered after a load exactly if the load returns 0, and not after the unload.
dtdemo_platdrv_cleanup-init :
    (a : Answer)
    → ((dtdemo_platdrv_init a).1 ≡ true ↔ (dtdemo_platdrv_init a).0 ≡ pos 0)
      × (dtdemo_platdrv_cleanup (dtdemo_platdrv_init a).1 ≡ false)
unfolding dtdemo_platdrv_init dtdemo_platdrv_cleanup
dtdemo_platdrv_cleanup-init a = ((ground arith, ground arith), ground arith)

-- The driver is bound exactly to a device with a node that has both properties; a device without a
-- node is refused with -EINVAL, one whose node lacks a property with -1.
dtdemo_platdev_probe_lem :
    (o : Option Node)
    → (dtdemo_platdev_probe o ≡ pos 0 → o ≢ none)
      × (dtdemo_platdev_probe o ≡ einval → o ≡ none)
      × ((n : Node)
          → (dtdemo_platdev_probe (some n) ≡ pos 0)
            ↔ (n.has_aproperty ≡ true) × (n.my_value ≡ succeeded))
unfolding dtdemo_platdev_probe
dtdemo_platdev_probe_lem o = (ground arith, ground arith, λ n. (ground arith, ground arith))
