-- ===== src/Sblkdev/Lifecycle.antt =====
-- `sblkdev_add` and `sblkdev_remove` of blockdrv/sblkdev/device.c: what each path acquires and
-- releases. The kernel's functions are known by their answers only.
use l3_dd_trg.Base.{
  ℕ, ◌+◌, ◌*◌, ◌≡◌, ◌≢◌, Bool, true, false, some, List, [], ◌∷◌, ◌++◌, arith, if◌then◌else◌,
}
use l3_dd_trg.Base.Int.{pos, negsuc, enomem}
use l3_dd_trg.Base.Ledger.{
  Answer, succeeded, failed, Resource, Event, acquire, release, Outcome, done, ◌▸◌, replay,
}

-- What the driver holds for the device with a minor number, and for the module.
pub data Held : Type 0 where
  major catalog : Held
  dev_struct dev_data tag_set queue disk live : ℕ → Held

abbrev tag : Held → ℕ
tag major = 0
tag catalog = 1
tag (dev_struct i) = 8 * i + 2
tag (dev_data i) = 8 * i + 3
tag (tag_set i) = 8 * i + 4
tag (queue i) = 8 * i + 5
tag (disk i) = 8 * i + 6
tag (live i) = 8 * i + 7

pub tag_injective : (a b : Held) → tag a ≡ tag b → a ≡ b
tag_injective a b h = ground arith

instance abbrev pub held_resource : Resource Held
held_resource = record { tag = tag; tag_injective = tag_injective }

-- The symbols of the build: `CONFIG_SBLKDEV_REQUESTS_BASED`, `HAVE_BLK_MQ_ALLOC_DISK` (and with it
-- `HAVE_BLK_ALLOC_DISK`), `HAVE_ADD_DISK_RESULT`.
pub record Config : Type 0 where
  pub requests_based : Bool
  pub kernel_alloc_disk : Bool
  pub add_disk_result : Bool

-- A pointer, NULL, or an error pointer; `err_ptr n` is ERR_PTR(-(n + 1)).
pub data Pointer : Type 0 where
  valid null : Pointer
  err_ptr : ℕ → Pointer

-- The kernel's answers during one call of `sblkdev_add`.
pub record Kernel : Type 0 where
  pub kzalloc : Bool
  pub kvzalloc : Bool
  pub blk_mq_alloc_tag_set : Answer
  pub alloc_disk : Pointer
  pub init_queue : Pointer
  pub legacy_alloc_disk : Bool
  pub add_disk : Answer

-- What a function that returns a disk returns, and what it did.
pub record DiskOutcome : Type 0 where
  pub pointer : Pointer
  pub events : List (Event Held)

-- `blk_mq_alloc_disk` and `blk_alloc_disk`: the kernel's, or the driver's own for older kernels.
unfoldable blk_mq_alloc_disk : Config → Kernel → ℕ → DiskOutcome
blk_mq_alloc_disk c k i =
    if c.kernel_alloc_disk
    then elim k.alloc_disk [
      | valid ↦ record { pointer = valid; events = acquire (disk i) ∷ [] }
      | p ↦ record { pointer = p; events = [] }
    ]
    else elim k.init_queue [
      | err_ptr e ↦ record { pointer = err_ptr e; events = [] }
      | _ ↦
          if k.legacy_alloc_disk
          then record { pointer = valid; events = acquire (queue i) ∷ acquire (disk i) ∷ [] }
          else record { pointer = null; events = acquire (queue i) ∷ [] }
    ]

unfoldable blk_alloc_disk : Config → Kernel → ℕ → DiskOutcome
blk_alloc_disk c k i =
    if c.kernel_alloc_disk
    then elim k.alloc_disk [
      | valid ↦ record { pointer = valid; events = acquire (disk i) ∷ [] }
      | _ ↦ record { pointer = null; events = [] }
    ]
    else elim k.init_queue [
      | valid ↦
          if k.legacy_alloc_disk
          then record { pointer = valid; events = acquire (queue i) ∷ acquire (disk i) ∷ [] }
          else record { pointer = null; events = acquire (queue i) ∷ release (queue i) ∷ [] }
      | _ ↦ record { pointer = null; events = [] }
    ]

-- The labels at the end of `sblkdev_add`; each falls through to the next.
abbrev fail_kfree : ℕ → List (Event Held)
fail_kfree i = release (dev_struct i) ∷ []

abbrev fail_kvfree : ℕ → List (Event Held)
fail_kvfree i = release (dev_data i) ∷ fail_kfree i

abbrev fail_free_tag_set : Config → ℕ → List (Event Held)
fail_free_tag_set c i =
    if c.requests_based then release (tag_set i) ∷ fail_kvfree i else fail_kvfree i

-- `blk_cleanup_disk`, or `put_disk`, or with `blk_cleanup_queue` before it.
abbrev put_disk : Config → ℕ → List (Event Held)
put_disk c i =
    if c.kernel_alloc_disk then release (disk i) ∷ [] else release (queue i) ∷ release (disk i) ∷ []

abbrev fail_put_disk : Config → ℕ → List (Event Held)
fail_put_disk c i = put_disk c i ++ fail_free_tag_set c i

-- From the line `dev->disk = disk` on.
unfoldable add_live : Config → Kernel → ℕ → Outcome Held
add_live c k i =
    if c.add_disk_result
    then elim k.add_disk [
      | succeeded ↦ done (pos 0) (acquire (live i) ∷ [])
      | failed e ↦ done (negsuc e) (fail_put_disk c i)
    ]
    else done (pos 0) (acquire (live i) ∷ [])

prefix_events : List (Event Held) → Outcome Held → Outcome Held
prefix_events es o = done o.ret (es ++ o.events)

unfoldable add_disk_of : Config → Kernel → ℕ → Outcome Held
unfolding blk_mq_alloc_disk blk_alloc_disk add_live prefix_events
add_disk_of c k i =
    if c.requests_based
    then elim k.blk_mq_alloc_tag_set [
      | failed e ↦ done (negsuc e) (fail_kvfree i)
      | succeeded ↦
          acquire (tag_set i)
          ▸ (let d = blk_mq_alloc_disk c k i in
              prefix_events d.events (elim d.pointer [
                | null ↦ done enomem (fail_free_tag_set c i)
                | err_ptr e ↦ done (negsuc e) (fail_free_tag_set c i)
                | valid ↦ add_live c k i
              ]))
    ]
    else (let d = blk_alloc_disk c k i in
        prefix_events d.events
          (elim d.pointer [ valid ↦ add_live c k i | _ ↦ done enomem (fail_kvfree i) ]))

-- `sblkdev_add`: the result is 0 for a device, and the error of the error pointer otherwise.
unfoldable pub sblkdev_add : Config → Kernel → ℕ → Outcome Held
unfolding add_disk_of
sblkdev_add c k i =
    if k.kzalloc
    then acquire (dev_struct i)
      ▸ (if k.kvzalloc
          then acquire (dev_data i) ▸ add_disk_of c k i
          else done enomem (fail_kfree i))
    else done enomem []

unfoldable pub sblkdev_remove : Config → ℕ → List (Event Held)
sblkdev_remove c i =
    release (live i) ∷ put_disk c i
    ++ (if c.requests_based then release (tag_set i) ∷ [] else [])
    ++ release (dev_data i) ∷ release (dev_struct i) ∷ []

-- What a device that was added holds.
abbrev pub owned : Config → ℕ → List Held
owned c i =
    live i ∷ disk i ∷ (if c.kernel_alloc_disk then [] else queue i ∷ [])
    ++ (if c.requests_based then tag_set i ∷ [] else [])
    ++ dev_data i ∷ dev_struct i ∷ []

-- With the kernel's functions that allocate a disk, `sblkdev_add` returns a device and holds just
-- that device's resources more, or returns an error and holds just what was held before; nothing
-- is released that is not held.
pub sblkdev_add-ledger :
    (c : Config) (k : Kernel) (i : ℕ) (held : List Held)
    → c.kernel_alloc_disk ≡ true
    → ((sblkdev_add c k i).ret ≡ pos 0
        → replay (sblkdev_add c k i).events held ≡ some (owned c i ++ held))
      × ((sblkdev_add c k i).ret ≢ pos 0 → replay (sblkdev_add c k i).events held ≡ some held)
unfolding sblkdev_add
sblkdev_add-ledger c k i held modern = (ground arith, ground arith)

-- `sblkdev_remove` releases just what `sblkdev_add` left held.
pub sblkdev_remove-ledger :
    (c : Config) (i : ℕ) (held : List Held)
    → replay (sblkdev_remove c i) (owned c i ++ held) ≡ some held
unfolding sblkdev_remove
sblkdev_remove-ledger c i held = ground arith

-- With the driver's own `blk_mq_alloc_disk` a failed `alloc_disk` leaves the queue that was just
-- made: `sblkdev_add` returns -ENOMEM and holds that queue more than before.
sblkdev_add-queue_leak :
    (c : Config) (k : Kernel) (i : ℕ) (held : List Held)
    → c.kernel_alloc_disk ≡ false
    → c.requests_based ≡ true
    → k.kzalloc ≡ true
    → k.kvzalloc ≡ true
    → k.blk_mq_alloc_tag_set ≡ succeeded
    → k.init_queue ≡ valid
    → k.legacy_alloc_disk ≡ false
    → ((sblkdev_add c k i).ret ≡ enomem)
      × (replay (sblkdev_add c k i).events held ≡ some (queue i ∷ held))
unfolding sblkdev_add
sblkdev_add-queue_leak c k i held h1 h2 h3 h4 h5 h6 h7 = ground arith
