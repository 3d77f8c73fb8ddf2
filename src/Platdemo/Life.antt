-- ===== src/Platdemo/Life.antt =====
-- The setup and teardown of platdemo.c.
use l3_dd_trg.Base.{◌≡◌, ◌≢◌, ◌++◌, [], some, arith}
use l3_dd_trg.Base.Int.{pos}
use l3_dd_trg.Base.Ledger.{replay}
use l3_dd_trg.Platdemo.{held_resource, Kernel, platdev_init, platdev_exit}

-- A load that fails holds nothing; after a load that returns 0 the teardown releases everything.
platdev_exit-platdev_init :
    (k : Kernel)
    → ((platdev_init k).ret ≢ pos 0 → replay (platdev_init k).events [] ≡ some [])
      × ((platdev_init k).ret ≡ pos 0
          → replay ((platdev_init k).events ++ platdev_exit) [] ≡ some [])
unfolding platdev_init platdev_exit
platdev_exit-platdev_init k = (ground arith, ground arith)
