-- ===== src/Platdemo/Tests.antt =====
-- A load of platdemo.c whose driver is refused.
use l3_dd_trg.Base.{◌≡◌, refl, [], some, true}
use l3_dd_trg.Base.Int.{negsuc}
use l3_dd_trg.Base.Ledger.{succeeded, failed, replay}
use l3_dd_trg.Platdemo.{held_resource, Kernel, platdev_init}

abbrev refused : Kernel
refused = record {
  kzalloc = true;
  platform_add_devices = succeeded;
  platform_driver_register = failed 15;
}

refused_load :
    ((platdev_init refused).ret ≡ negsuc 15) × (replay (platdev_init refused).events [] ≡ some [])
unfolding platdev_init
refused_load = (refl, refl)
