-- ===== src/Chardrv/Tests.antt =====
-- A load of the template whose second character device is refused.
use l3_dd_trg.Base.{true, ◌==◌, if◌then◌else◌}
use l3_dd_trg.Base.Ledger.{succeeded, failed}
use l3_dd_trg.Chardrv.{held_resource, Kernel}

abbrev refused : Kernel
refused = record {
  alloc_chrdev_region = succeeded;
  kzalloc = true;
  cdev_add = λ i. if i == 0 then succeeded else failed 15;
  class_create = true;
  device_create = λ _. true;
}
