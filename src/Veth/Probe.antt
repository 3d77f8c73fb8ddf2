-- ===== src/Veth/Probe.antt =====
-- `vnet_probe` and `vnet_remove` of veth_netdrv.c, and the life of the module with them.
use l3_dd_trg.Base.{◌≡◌, ◌≢◌, some, List, [], ◌∷◌, ◌++◌, Bool, arith, if◌then◌else◌}
use l3_dd_trg.Base.Int.{pos, negsuc, enomem, is_zero}
use l3_dd_trg.Base.Ledger.{
  Answer, succeeded, failed, Event, acquire, release, Outcome, done, ◌▸◌, replay,
}
use l3_dd_trg.Veth.Setup.{Held, netdev, registration, held_resource, Kernel, vnet_init, vnet_exit}

-- The kernel's answers during `vnet_probe`.
pub record ProbeKernel : Type 0 where
  pub alloc_etherdev : Bool
  pub register_netdev : Answer

unfoldable vnet_probe : ProbeKernel → Outcome Held
vnet_probe p =
    if p.alloc_etherdev
    then acquire netdev ▸ elim p.register_netdev [
      | failed e ↦ done (negsuc e) (release netdev ∷ [])
      | succeeded ↦ acquire registration ▸ done (pos 0) []
    ]
    else done enomem []

unfoldable vnet_remove : List (Event Held)
vnet_remove = release registration ∷ release netdev ∷ []

-- What a module that loads does until it is gone: the driver core probes the device, and removes it
-- again before the driver is unregistered if the probe succeeded.
unfoldable whole_life : Kernel → ProbeKernel → List (Event Held)
unfolding vnet_probe vnet_remove
whole_life k p =
    (vnet_init k).events
    ++ (vnet_probe p).events
    ++ (if is_zero (vnet_probe p).ret then vnet_remove else [])
    ++ vnet_exit

-- A probe holds the network device and its registration if it returns 0, and nothing otherwise. A
-- module that loads has released everything when it is gone, however its probe went.
whole_life-releases :
    (k : Kernel) (p : ProbeKernel)
    → ((vnet_probe p).ret ≡ pos 0
        → replay (vnet_probe p).events [] ≡ some (registration ∷ netdev ∷ []))
      × ((vnet_probe p).ret ≢ pos 0 → replay (vnet_probe p).events [] ≡ some [])
      × ((vnet_init k).ret ≡ pos 0 → replay (whole_life k p) [] ≡ some [])
unfolding whole_life vnet_init vnet_exit vnet_probe vnet_remove
whole_life-releases k p = (ground arith, ground arith, ground arith)
