-- ===== src/Sblkdev/Wiring.antt =====
-- How `sblkdev_add` of blockdrv/sblkdev/device.c ties a disk to its device in the request-based build:
-- the tag set, the queue, `private_data`; what is set of the queue's limits; and the methods that only
-- look at the ties. An address is the place of a device in the list of those that were allocated.
use l3_dd_trg.Base.{
  ℕ, zero, suc, ◌+◌, ◌<◌, ◌≡◌, ◌⊎◌, inl, inr, sym, append-nil, append_assoc, refl, ap, ◌∙◌, Bool,
  true, Option, none, some, List, [], ◌∷◌, ◌++◌, length, length-append, nth, arith,
}
use l3_dd_trg.Base.Int.{ℤ, pos, negsuc, enxio, enotty}
use l3_dd_trg.Sblkdev.{Device}

-- What the driver fills in of a `struct blk_mq_tag_set`; `stacking` is BLK_MQ_F_STACKING.
pub record TagSet : Type 0 where
  pub nr_hw_queues : ℕ
  pub nr_maps : ℕ
  pub queue_depth : ℕ
  pub numa_node : ℤ
  pub stacking : Bool
  pub cmd_size : ℕ
  pub driver_data : ℕ

unfoldable pub init_tag_set : ℕ → TagSet
init_tag_set dev = record {
  nr_hw_queues = 1;
  nr_maps = 1;
  queue_depth = 128;
  numa_node = negsuc 0;
  stacking = true;
  cmd_size = 0;
  driver_data = dev;
}

-- What the driver may set of a queue's limits; `nomerges` is QUEUE_FLAG_NOMERGES.
pub record Limits : Type 0 where
  pub physical_block_size : ℕ
  pub logical_block_size : ℕ
  pub io_min : ℕ
  pub io_opt : ℕ
  pub nomerges : Bool

-- CONFIG_SBLKDEV_BLOCK_SIZE, if it is defined; without it the kernel's limits are read and left.
unfoldable pub set_limits : Option ℕ → Limits → Limits
set_limits none limits = record limits { nomerges = true }
set_limits (some size) limits = record {
  physical_block_size = size;
  logical_block_size = size;
  io_min = size;
  io_opt = size;
  nomerges = true;
}

-- A disk's pointers to its device: its own, that of its queue, that of the tag set.
pub record Wiring : Type 0 where
  pub private_data : Option ℕ
  pub queuedata : Option ℕ
  pub tag_set : TagSet
  pub limits : Limits

unfoldable pub wire : Option ℕ → Limits → ℕ → Wiring
wire block_size limits dev = record {
  private_data = some dev;
  queuedata = some dev;
  tag_set = init_tag_set dev;
  limits = set_limits block_size limits;
}

-- A disk without a device is refused.
unfoldable pub sblkdev_open : Wiring → ℤ
sblkdev_open disk = elim disk.private_data [ none ↦ enxio | some dev ↦ pos 0 ]

unfoldable sblkdev_compat_ioctl : ℕ → ℕ → ℤ
sblkdev_compat_ioctl cmd arg = enotty

-- The devices that are allocated, and the disks, in the order in which they were added.
pub record Machine : Type 0 where
  pub heap : List Device
  pub disks : List Wiring

-- A device is added.
unfoldable pub attach : Option ℕ → Limits → Machine → Device → Machine
attach block_size limits m dev = record {
  heap = m.heap ++ dev ∷ [];
  disks = m.disks ++ wire block_size limits (length m.heap) ∷ [];
}

-- Several devices are added, one after the other.
unfoldable pub attach_all : Option ℕ → Limits → Machine → List Device → Machine
attach_all block_size limits m [] = m
attach_all block_size limits m (dev ∷ devs) =
    attach_all block_size limits (attach block_size limits m dev) devs

-- A disk that is tied to the device at this address.
pub record IsTied (m : Machine) (i : ℕ) : Type 0 where
  pub disk : Wiring
  pub found : nth m.disks i ≡ some disk
  pub own : disk.private_data ≡ some i
  pub queue : disk.queuedata ≡ some i
  pub tags : disk.tag_set.driver_data ≡ i

-- Every disk is tied to the device that was added with it.
pub record IsWired (m : Machine) : Type 0 where
  pub as_many : length m.disks ≡ length m.heap
  pub tied : (i : ℕ) → i < length m.heap → IsTied m i

nth-append_left {ℓ} :
    {A : Type ℓ} (xs ys : List A) (i : ℕ) → i < length xs → nth (xs ++ ys) i ≡ nth xs i
nth-append_left [] ys i h = absurd (omega arith)
nth-append_left (x ∷ xs) ys zero h = refl
nth-append_left (x ∷ xs) ys (suc i) h = nth-append_left xs ys i (omega arith)

nth-append_end {ℓ} : {A : Type ℓ} (xs : List A) (y : A) → nth (xs ++ y ∷ []) (length xs) ≡ some y
nth-append_end [] y = refl
nth-append_end (x ∷ xs) y = nth-append_end xs y

module _ (block_size : Option ℕ) (limits : Limits) where
  attach-IsTied :
      (m : Machine) (dev : Device) (i : ℕ)
      → IsWired m
      → i < length (attach block_size limits m dev).heap
      → IsTied (attach block_size limits m dev) i
  unfolding attach wire init_tag_set
  attach-IsTied m dev i h l =
      elim (split i (length m.heap) (omega (arith, length-append m.heap (dev ∷ [])))) [
        | inl old ↦
            let t = h.tied i old in
            record {
              disk = t.disk;
              found = nth-append_left m.disks _ i (omega (arith, h.as_many)) ∙ t.found;
              own = t.own;
              queue = t.queue;
              tags = t.tags;
            }
        | inr new ↦ record {
          disk = wire block_size limits (length m.heap);
          found =
              ap (nth (m.disks ++ wire block_size limits (length m.heap) ∷ []))
                (new ∙ sym h.as_many)
              ∙ nth-append_end m.disks (wire block_size limits (length m.heap));
          own = ap some (sym new);
          queue = ap some (sym new);
          tags = sym new;
        }
      ]
    where
      split : (a b : ℕ) → a < b + 1 → (a < b) ⊎ (a ≡ b)
      split a b h = ground arith

  attach-IsWired :
      (m : Machine) (dev : Device) → IsWired m → IsWired (attach block_size limits m dev)
  unfolding attach
  attach-IsWired m dev h = record {
    as_many = omega (
      arith,
      h.as_many,
      length-append m.heap (dev ∷ []),
      length-append m.disks (wire block_size limits (length m.heap) ∷ []),
    );
    tied = λ i l. attach-IsTied m dev i h l;
  }

  -- However many devices are added to a machine in which every disk is tied to its own device, and
  -- whatever the limits of the queues: every disk is, by its own pointer, its queue's and its tag
  -- set's.
  pub attach_all-IsWired :
      (devs : List Device) (m : Machine) → IsWired m → IsWired (attach_all block_size limits m devs)
  unfolding attach_all
  attach_all-IsWired [] m h = h
  attach_all-IsWired (dev ∷ devs) m h =
      attach_all-IsWired devs (attach block_size limits m dev) (attach-IsWired m dev h)

  pub attach_all-heap :
      (devs : List Device) (m : Machine)
      → (attach_all block_size limits m devs).heap ≡ m.heap ++ devs
  unfolding attach_all attach
  attach_all-heap [] m = sym (append-nil m.heap)
  attach_all-heap (dev ∷ devs) m =
      attach_all-heap devs (attach block_size limits m dev) ∙ append_assoc m.heap (dev ∷ []) devs

  -- A tied disk can be opened.
  pub sblkdev_open-IsTied : {m : Machine} {i : ℕ} (t : IsTied m i) → sblkdev_open t.disk ≡ pos 0
  unfolding sblkdev_open
  sblkdev_open-IsTied t = rw (t.own) refl
