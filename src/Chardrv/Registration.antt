-- ===== src/Chardrv/Registration.antt =====
-- What the template of chardrv_template.c holds when its load returns.
use l3_dd_trg.Base.{◌≡◌, ◌≢◌, ◌++◌, true, List, [], ◌∷◌, some, arith, if◌then◌else◌}
use l3_dd_trg.Base.Int.{pos}
use l3_dd_trg.Base.Ledger.{succeeded, failed, replay}
use l3_dd_trg.Chardrv.{
  Held, region, memory, cdev, held_resource, Kernel, chardev_registration, cdrv_cleanup_module,
}

-- what a load leaves that failed
abbrev left_behind : Kernel → List Held
left_behind k = elim k.alloc_chrdev_region [
  | failed e ↦ []
  | succeeded ↦
      if k.kzalloc
      then (elim (k.cdev_add 0) [
        | failed e ↦ memory ∷ region ∷ []
        | succeeded ↦ cdev 0 ∷ memory ∷ region ∷ []
      ])
      else region ∷ []
]

-- A load returns 0 if the region, the memory and both character devices could be had, even if the
-- class or a node could not; then the teardown releases everything. A load that fails releases
-- nothing of what it had by then: the region, the memory, the first character device.
chardev_registration_lem :
    (k : Kernel)
    → (k.alloc_chrdev_region ≡ succeeded
        → k.kzalloc ≡ true
        → k.cdev_add 0 ≡ succeeded
        → k.cdev_add 1 ≡ succeeded
        → (chardev_registration k).ret ≡ pos 0)
      × ((chardev_registration k).ret ≡ pos 0
          → replay ((chardev_registration k).events ++ cdrv_cleanup_module k) [] ≡ some [])
      × ((chardev_registration k).ret ≢ pos 0
          → replay (chardev_registration k).events [] ≡ some (left_behind k))
unfolding chardev_registration cdrv_cleanup_module
chardev_registration_lem k = (ground arith, ground arith, ground arith)
