-- ===== src/Sblkdev.antt =====
-- The data paths of blockdrv/sblkdev/device.c: `process_request` and `sblkdev_queue_rq` of the
-- request-based build, `process_bio` of the bio-based one.
-- A buffer is the list of its bytes. A `loff_t` or `sector_t` is its pattern of 64 bits.
pub mod Transfer
pub mod RoundTrip
pub mod Bio
pub mod Geometry
pub mod Lifecycle
pub mod Naming
pub mod Wiring
pub mod Parallel
pub mod Catalog
mod Tests
use l3_dd_trg.Base.{
  ℕ, ◌+◌, ◌-◌, ◌*◌, ◌%◌, ◌^◌, Bool, true, false, Option, none, some, List, [], ◌∷◌, ltb, length,
  if◌then◌else◌, ◌>>=◌,
}
use l3_dd_trg.Base.Int.{ℤ, pos, is_zero}
use l3_dd_trg.Base.Bytes.{memcpy}

-- `struct sblkdev_device`, less the links into the kernel; `store` is `data`.
pub record Device : Type 0 where
  pub capacity : ℕ
  pub store : List ℕ

-- What the drivers read of a `struct request` or a `struct bio`.
pub record Request : Type 0 where
  pub sector : ℕ
  pub is_write : Bool
  pub segments : List (List ℕ)

-- `x << SECTOR_SHIFT`
abbrev pub to_bytes : ℕ → ℕ
to_bytes sectors = sectors * 512 % 2 ^ 64

-- `len`, cut at the end of the device; the sums are of 64 bits, unsigned.
unfoldable pub clamp_len : ℕ → ℕ → ℕ → ℕ
clamp_len dev_size at bv_len =
    if ltb dev_size ((at + bv_len) % 2 ^ 64) then (dev_size + 2 ^ 64 - at) % 2 ^ 64 else bv_len

-- The two calls of `memcpy`: the device's bytes and the segment's afterwards.
unfoldable pub copy_segment : Bool → List ℕ → ℕ → List ℕ → ℕ → Option (List ℕ × List ℕ)
copy_segment true store at buf len = memcpy store at buf 0 len >>= λ store'. some (store', buf)
copy_segment false store at buf len = memcpy buf 0 store at len >>= λ buf'. some (store, buf')

-- The loop `rq_for_each_segment`, from the position `at` with `nr_bytes` copied so far.
unfoldable pub for_each_segment :
    Bool → ℕ → ℕ → ℕ → List ℕ → List (List ℕ) → Option (List ℕ × List (List ℕ) × ℕ)
for_each_segment is_write dev_size at nr_bytes store [] = some (store, [], nr_bytes)
for_each_segment is_write dev_size at nr_bytes store (buf ∷ rest) =
    let len = clamp_len dev_size at (length buf) in
    copy_segment is_write store at buf len >>= λ (store', buf').
    for_each_segment is_write dev_size ((at + len) % 2 ^ 64) ((nr_bytes + len) % 2 ^ 32) store' rest
    >>= λ (end_store, bufs, total). some (end_store, buf' ∷ bufs, total)

-- `process_request`: its result, the device, the request's segments and `*nr_bytes`.
unfoldable pub process_request : Device → Request → Option (ℤ × Device × List (List ℕ) × ℕ)
process_request dev rq =
    for_each_segment rq.is_write (to_bytes dev.capacity) (to_bytes rq.sector) 0 dev.store
      rq.segments
    >>= λ (store', bufs, nr_bytes). some (pos 0, record dev { store = store' }, bufs, nr_bytes)

pub data BlkStatus : Type 0 where
  sts_ok sts_ioerr : BlkStatus

-- The calls back into the block layer.
pub data MqCall : Type 0 where
  start_request : MqCall
  end_request : BlkStatus → MqCall

unfoldable pub sblkdev_queue_rq :
    Device → Request → Option (BlkStatus × Device × List (List ℕ) × List MqCall)
sblkdev_queue_rq dev rq = process_request dev rq >>= λ (ret, dev', bufs, nr_bytes).
    let status = if is_zero ret then sts_ok else sts_ioerr in
    some (status, dev', bufs, start_request ∷ end_request status ∷ [])

-- `a > b` of two `loff_t`
abbrev pub loff_gt : ℕ → ℕ → Bool
loff_gt a b = ltb ((b + 2 ^ 63) % 2 ^ 64) ((a + 2 ^ 63) % 2 ^ 64)

-- The loop `bio_for_each_segment` of `process_bio`, which stops at a segment that does not fit.
unfoldable pub for_each_bio_segment :
    Bool → ℕ → ℕ → List ℕ → List (List ℕ) → Option (BlkStatus × List ℕ × List (List ℕ))
for_each_bio_segment is_write dev_size at store [] = some (sts_ok, store, [])
for_each_bio_segment is_write dev_size at store (buf ∷ rest) =
    let go = copy_segment is_write store at buf (length buf) >>= λ (store', buf').
    for_each_bio_segment is_write dev_size ((at + length buf) % 2 ^ 64) store' rest
    >>= λ (status, end_store, bufs). some (status, end_store, buf' ∷ bufs) in
    if loff_gt ((at + length buf) % 2 ^ 64) dev_size
    then some (sts_ioerr, store, buf ∷ rest)
    else go

-- `process_bio`: the bio's status, the device and the bio's segments.
unfoldable pub process_bio : Device → Request → Option (BlkStatus × Device × List (List ℕ))
process_bio dev bio =
    for_each_bio_segment bio.is_write (to_bytes dev.capacity) (to_bytes bio.sector) dev.store
      bio.segments
    >>= λ (status, store', bufs). some (status, record dev { store = store' }, bufs)
