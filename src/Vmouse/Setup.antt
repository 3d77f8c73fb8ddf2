-- ===== src/Vmouse/Setup.antt =====
-- What the setup of input_drv_mouse.c holds when it returns.
use l3_dd_trg.Base.{◌≡◌, ◌≢◌, true, false, none, some, [], ◌++◌, arith}
use l3_dd_trg.Base.Int.{pos}
use l3_dd_trg.Base.Ledger.{replay}
use l3_dd_trg.Vmouse.{held_resource, Kernel, input_drv_vmouse_init, input_drv_vmouse_cleanup}

-- A load that fails holds nothing. A load that returns 0 is undone by the teardown if the input
-- device could be allocated; if it could not, the load returns 0 all the same, holds nothing, and
-- the teardown releases what is not held.
input_drv_vmouse_init_lem :
    (k : Kernel)
    → ((input_drv_vmouse_init k).ret ≢ pos 0 → replay (input_drv_vmouse_init k).events [] ≡ some [])
      × ((input_drv_vmouse_init k).ret ≡ pos 0
          → k.input_allocate ≡ true
          → replay ((input_drv_vmouse_init k).events ++ input_drv_vmouse_cleanup) [] ≡ some [])
      × ((input_drv_vmouse_init k).ret ≡ pos 0
          → k.input_allocate ≡ false
          → (replay (input_drv_vmouse_init k).events [] ≡ some [])
            × (replay ((input_drv_vmouse_init k).events ++ input_drv_vmouse_cleanup) [] ≡ none))
unfolding input_drv_vmouse_init input_drv_vmouse_cleanup
input_drv_vmouse_init_lem k = (ground arith, ground arith, ground arith)
