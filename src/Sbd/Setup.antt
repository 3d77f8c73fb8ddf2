-- ===== src/Sbd/Setup.antt =====
-- `sbd_init` and `sbd_exit` (blockdrv/older_sblkdrv/sbd.c) on the ledger of resources.
use l3_dd_trg.Base.{◌≡◌, ◌≢◌, ◌&&◌, some, [], ◌∷◌, ◌++◌, arith, if◌then◌else◌}
use l3_dd_trg.Base.Int.{pos, enomem}
use l3_dd_trg.Base.Ledger.{replay}
use l3_dd_trg.Sbd.{held_resource, queue, Kernel, sbd_init, sbd_exit}

-- After a load that returns 0, `sbd_exit` releases everything that the driver holds.
sbd_exit-sbd_init :
    (k : Kernel) → (sbd_init k).ret ≡ pos 0 → replay ((sbd_init k).events ++ sbd_exit) [] ≡ some []
unfolding sbd_init sbd_exit
sbd_exit-sbd_init k h = ground arith

-- A load that fails returns -ENOMEM and holds nothing, except that the request queue is kept if it
-- had been made.
sbd_init_fails :
    (k : Kernel)
    → (sbd_init k).ret ≢ pos 0
    → ((sbd_init k).ret ≡ enomem)
      × (replay (sbd_init k).events []
          ≡ some (if k.vmalloc && k.blk_init_queue then queue ∷ [] else []))
unfolding sbd_init
sbd_init_fails k h = ground arith
