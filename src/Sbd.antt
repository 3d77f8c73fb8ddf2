-- ===== src/Sbd.antt =====
-- blockdrv/older_sblkdrv/sbd.c, the older RAM disk: its transfers, its request loop, its geometry,
-- its setup and teardown.
pub mod Transfer
pub mod Setup
mod Tests
use l3_dd_trg.Base.{
  ℕ, ◌+◌, ◌-◌, ◌*◌, ◌/◌, ◌%◌, ◌^◌, Bool, true, false, Option, none, some, List, [], ◌∷◌, ltb,
  length, if◌then◌else◌, ◌>>=◌, ◌≡◌, arith,
}
use l3_dd_trg.Base.Int.{ℤ, pos, negsuc, is_nonpositive, enomem}
use l3_dd_trg.Base.Bytes.{memcpy}
use l3_dd_trg.Base.Ledger.{Resource, Event, acquire, release, Outcome, done, ◌▸◌}

-- `struct sbd_device`, less the lock and the disk; `store` is `data`.
pub record SbdDevice : Type 0 where
  pub size : ℕ
  pub store : List ℕ

-- What the block layer hands to `sbd_transfer`: the current segment of a request.
pub record Chunk : Type 0 where
  pub sector : ℕ
  pub nsect : ℕ
  pub buffer : List ℕ
  pub is_write : Bool

module _ (logical_block_size : ℕ) where
  -- The device and the buffer afterwards; `none` is a copy out of bounds.
  unfoldable pub sbd_transfer : SbdDevice → Chunk → Option (SbdDevice × List ℕ)
  sbd_transfer dev c =
      let offset = c.sector * logical_block_size % 2 ^ 64 in
      let nbytes = c.nsect * logical_block_size % 2 ^ 64 in
      if ltb dev.size ((offset + nbytes) % 2 ^ 64)
      then some (dev, c.buffer)
      else if c.is_write
      then (memcpy dev.store offset c.buffer 0 nbytes >>= λ s.
          some (record dev { store = s }, c.buffer))
      else (memcpy c.buffer 0 dev.store offset nbytes >>= λ b. some (dev, b))

  -- `sbd_request`: the segments that the block layer offers, one after another, until the queue is
  -- empty. Each is ended as a success.
  unfoldable pub sbd_request : SbdDevice → List Chunk → Option (SbdDevice × List (List ℕ))
  sbd_request dev [] = some (dev, [])
  sbd_request dev (c ∷ cs) = sbd_transfer dev c >>= λ (dev', buf).
      sbd_request dev' cs >>= λ (end_dev, bufs). some (end_dev, buf ∷ bufs)

  -- `struct hd_geometry`: cylinders, heads and sectors; cylinders are of 16 bits.
  unfoldable pub sbd_getgeometry : SbdDevice → ℕ × ℕ × ℕ
  sbd_getgeometry dev =
      let size = dev.size * (logical_block_size / 512) % 2 ^ 64 in (size / 64 % 2 ^ 16, 4, 16)

-- `nsectors * logical_block_size`, an `int` that becomes an `unsigned long`.
unfoldable pub device_size : ℕ → ℕ → ℕ
device_size nsectors logical_block_size =
    let w = nsectors * logical_block_size % 2 ^ 32 in
    if ltb w (2 ^ 31) then w else w + 2 ^ 64 - 2 ^ 32

pub data Held : Type 0 where
  disk_data queue major disk live : Held

abbrev tag : Held → ℕ
tag disk_data = 0
tag queue = 1
tag major = 2
tag disk = 3
tag live = 4

pub tag_injective : (a b : Held) → tag a ≡ tag b → a ≡ b
tag_injective a b h = ground arith

instance abbrev pub held_resource : Resource Held
held_resource = record { tag = tag; tag_injective = tag_injective }

-- The kernel's answers during `sbd_init`.
pub record Kernel : Type 0 where
  pub vmalloc : Bool
  pub blk_init_queue : Bool
  pub register_blkdev : ℤ
  pub alloc_disk : Bool

abbrev out : List (Event Held)
out = release disk_data ∷ []

abbrev out_unregister : List (Event Held)
out_unregister = release major ∷ out

unfoldable pub sbd_init : Kernel → Outcome Held
sbd_init k =
    if k.vmalloc
    then acquire disk_data
      ▸ (if k.blk_init_queue
          then acquire queue
            ▸ (if is_nonpositive k.register_blkdev
                then done enomem out
                else acquire major
                  ▸ (if k.alloc_disk
                      then done (pos 0) (acquire disk ∷ acquire live ∷ [])
                      else done enomem out_unregister))
          else done enomem out)
    else done enomem []

unfoldable pub sbd_exit : List (Event Held)
sbd_exit = release live ∷ release disk ∷ release major ∷ release queue ∷ release disk_data ∷ []
