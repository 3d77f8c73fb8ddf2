-- ===== src/Sblkdev/Bio.antt =====
-- `process_bio` of blockdrv/sblkdev/device.c: a bio that fits is moved whole; one that does not is
-- moved up to the first segment that passes the end, and fails.
use l3_dd_trg.Base.{
  ℕ, ◌+◌, ◌*◌, ◌%◌, ◌^◌, ◌≤◌, ◌<◌, ◌≡◌, true, false, some, List, [], ◌∷◌, ◌++◌, leb, length, arith,
  length-append, le→leb, leb→le, gt→not-leb, Bool-cases, inl, inr, drop, if◌then◌else◌,
}
use l3_dd_trg.Base.Bytes.{
  overwrite, overwrite-nil, length-overwrite, overwrite-append, gather, drop-after-copy,
}
use l3_dd_trg.Sblkdev.{
  Device, Request, to_bytes, BlkStatus, sts_ok, sts_ioerr, for_each_bio_segment, loff_gt,
  process_bio,
}
use l3_dd_trg.Sblkdev.Transfer.{IsValid, copy_segment-write, copy_segment-read}

-- The leading segments that end on a device of `size` bytes, from `at` on.
abbrev pub fitting : ℕ → ℕ → List (List ℕ) → List (List ℕ)
fitting size at [] = []
fitting size at (buf ∷ rest) =
    let more = fitting size (at + length buf) rest in
    if leb (at + length buf) size then buf ∷ more else []

abbrev bio_status : ℕ → ℕ → List (List ℕ) → BlkStatus
bio_status size at bufs = if leb (at + length (gather bufs)) size then sts_ok else sts_ioerr

loff_gt-le : (a b : ℕ) → a ≤ b → b < 2 ^ 63 → loff_gt a b ≡ false
loff_gt-le a b h k = ground arith

loff_gt-gt : (a b : ℕ) → b < a → a < 2 ^ 63 → loff_gt a b ≡ true
loff_gt-gt a b h k = ground arith

for_each_bio_segment-write :
    (size at : ℕ) (store : List ℕ) (bufs : List (List ℕ))
    → length store ≡ size
    → at ≤ size
    → size + length (gather bufs) < 2 ^ 63
    → for_each_bio_segment true size at store bufs
      ≡ some (bio_status size at bufs, overwrite store at (gather (fitting size at bufs)), bufs)
unfolding for_each_bio_segment
for_each_bio_segment-write size at store [] a h s =
    rw (overwrite-nil store at, le→leb (at + 0) size (omega arith))
for_each_bio_segment-write size at store (buf ∷ rest) a h s =
    elim (Bool-cases (leb (at + length buf) size)) [
      | inl fits ↦
          let le : at + length buf ≤ size = leb→le _ _ fits in
          let whole : at + length (buf ++ gather rest) ≡ at + length buf + length (gather rest) =
            omega (arith, total) in
          rw (
            fits,
            whole,
            position,
            loff_gt-le (at + length buf) size le (omega arith),
            copy_segment-write store at buf (length buf) (omega arith) (omega arith),
            for_each_bio_segment-write size (at + length buf) (overwrite store at buf) rest
                (omega (arith, length-overwrite store at buf)) le (omega (arith, total)),
            overwrite-append store at buf (at + length buf)
                (gather (fitting size (at + length buf) rest)) (omega arith) (omega arith),
          )
      | inr over ↦
          let gt : size < at + length buf = ground arith in
          rw (
            over,
            overwrite-nil store at,
            position,
            loff_gt-gt (at + length buf) size gt (omega (arith, total)),
            gt→not-leb (at + length (buf ++ gather rest)) size (omega (arith, total)),
          )
    ]
  where
    total : length (buf ++ gather rest) ≡ length buf + length (gather rest)
    total = length-append buf (gather rest)

    position : (at + length buf) % 2 ^ 64 ≡ at + length buf
    position = omega (arith, total)

-- The segments of a bio after a read: those that fit are filled in turn.
abbrev pub scatter_fitting : ℕ → ℕ → List ℕ → List (List ℕ) → List (List ℕ)
scatter_fitting size at b [] = []
scatter_fitting size at b (buf ∷ rest) =
    let more =
      overwrite buf 0 b ∷ scatter_fitting size (at + length buf) (drop (length buf) b) rest in
    if leb (at + length buf) size then more else buf ∷ rest

for_each_bio_segment-read :
    (size at : ℕ) (store : List ℕ) (bufs : List (List ℕ))
    → length store ≡ size
    → at ≤ size
    → size + length (gather bufs) < 2 ^ 63
    → for_each_bio_segment false size at store bufs
      ≡ some (bio_status size at bufs, store, scatter_fitting size at (drop at store) bufs)
unfolding for_each_bio_segment
for_each_bio_segment-read size at store [] a h s = rw (le→leb (at + 0) size (omega arith))
for_each_bio_segment-read size at store (buf ∷ rest) a h s =
    elim (Bool-cases (leb (at + length buf) size)) [
      | inl fits ↦
          let le : at + length buf ≤ size = leb→le _ _ fits in
          let whole : at + length (buf ++ gather rest) ≡ at + length buf + length (gather rest) =
            omega (arith, total) in
          rw (
            fits,
            whole,
            position,
            loff_gt-le (at + length buf) size le (omega arith),
            copy_segment-read store at buf (length buf) (omega arith) (omega arith),
            for_each_bio_segment-read size (at + length buf) store rest a le (omega (arith, total)),
            drop-after-copy buf store at (length buf) (omega arith),
          )
      | inr over ↦
          let gt : size < at + length buf = ground arith in
          rw (
            over,
            position,
            loff_gt-gt (at + length buf) size gt (omega (arith, total)),
            gt→not-leb (at + length (buf ++ gather rest)) size (omega (arith, total)),
          )
    ]
  where
    total : length (buf ++ gather rest) ≡ length buf + length (gather rest)
    total = length-append buf (gather rest)

    position : (at + length buf) % 2 ^ 64 ≡ at + length buf
    position = omega (arith, total)

module _ {dev : Device} (bio : Request) (v : IsValid dev) (on : bio.sector ≤ dev.capacity)
    (short : dev.capacity * 512 + length (gather bio.segments) < 2 ^ 63) where
  -- On a valid device, a bio that writes and starts on it, the device and the bio together of
  -- fewer than 2^63 bytes: it succeeds exactly if all of it lies on the device; the segments up to
  -- the first that passes the end are laid over the device's bytes from its sector on, the others
  -- are not written at all, and no copy leaves the device or a segment.
  pub process_bio-write :
      bio.is_write ≡ true
      → process_bio dev bio
        ≡ some (
          bio_status (dev.capacity * 512) (bio.sector * 512) bio.segments,
          record dev {
            store =
                overwrite dev.store
                  (bio.sector * 512)
                  (gather (fitting (dev.capacity * 512) (bio.sector * 512) bio.segments));
          },
          bio.segments,
        )
  unfolding process_bio
  process_bio-write w =
      let size : to_bytes dev.capacity ≡ dev.capacity * 512 = omega arith in
      let at : to_bytes bio.sector ≡ bio.sector * 512 = omega arith in
      rw (
        w,
        size,
        at,
        for_each_bio_segment-write (dev.capacity * 512) (bio.sector * 512) dev.store bio.segments
            v.allocated (omega arith) short,
      )

  -- A bio that reads and starts on the device: it succeeds exactly if all of it lies on the device; the segments up to the
  -- first that passes the end are filled in turn with the device's bytes from its sector on, the
  -- others and the device keep their bytes.
  pub process_bio-read :
      bio.is_write ≡ false
      → process_bio dev bio
        ≡ some (
          bio_status (dev.capacity * 512) (bio.sector * 512) bio.segments,
          dev,
          scatter_fitting
              (dev.capacity * 512)
              (bio.sector * 512)
              (drop (bio.sector * 512) dev.store)
              bio.segments,
        )
  unfolding process_bio
  process_bio-read w =
      let size : to_bytes dev.capacity ≡ dev.capacity * 512 = omega arith in
      let at : to_bytes bio.sector ≡ bio.sector * 512 = omega arith in
      rw (
        w,
        size,
        at,
        for_each_bio_segment-read (dev.capacity * 512) (bio.sector * 512) dev.store bio.segments
            v.allocated (omega arith) short,
      )
