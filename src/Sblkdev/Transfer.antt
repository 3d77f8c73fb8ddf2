-- ===== src/Sblkdev/Transfer.antt =====
-- `process_request` against a flat array: a request moves its segments, one after another, to or
-- from the device's bytes at its sector.
use l3_dd_trg.Base.{
  ℕ, ◌+◌, ◌-◌, ◌*◌, ◌%◌, ◌^◌, ◌≤◌, ◌<◌, ◌≡◌, min, ap, ◌++◌, true, false, some, List, [], ◌∷◌,
  length, arith, length-append, drop,
}
use l3_dd_trg.Base.Int.{pos}
use l3_dd_trg.Base.Bytes.{
  memcpy-in-bounds, overwrite, overwrite-nil, length-overwrite, overwrite-append,
  overwrite-take-min, gather, scatter, overwrite-take-drop, drop-after-copy,
}
use l3_dd_trg.Sblkdev.{
  Device, Request, to_bytes, clamp_len, copy_segment, for_each_segment, process_request,
}

-- `sblkdev_add` allocates as many bytes as the capacity in sectors says.
pub record IsValid (dev : Device) : Type 0 where
  pub allocated : length dev.store ≡ dev.capacity * 512
  pub small : dev.capacity * 512 < 2 ^ 63

-- The request starts on the device, and its length fits an `unsigned int`.
pub record Starts (dev : Device) (rq : Request) : Type 0 where
  pub on_device : rq.sector ≤ dev.capacity
  pub short : length (gather rq.segments) < 2 ^ 32

pub clamp_len-eq-min :
    (size at n : ℕ)
    → at ≤ size
    → size < 2 ^ 63
    → n < 2 ^ 32
    → clamp_len size at n ≡ min n (size - at)
unfolding clamp_len
clamp_len-eq-min size at n h k l = ground arith

pub copy_segment-write :
    (store : List ℕ) (at : ℕ) (buf : List ℕ) (n : ℕ)
    → at ≤ length store
    → n ≡ min (length buf) (length store - at)
    → copy_segment true store at buf n ≡ some (overwrite store at buf, buf)
unfolding copy_segment
copy_segment-write store at buf n h e = rw (
  memcpy-in-bounds store at buf 0 n (omega arith) (omega arith),
  overwrite-take-min store at n buf e,
)

pub copy_segment-read :
    (store : List ℕ) (at : ℕ) (buf : List ℕ) (n : ℕ)
    → at ≤ length store
    → n ≡ min (length buf) (length store - at)
    → copy_segment false store at buf n ≡ some (store, overwrite buf 0 (drop at store))
unfolding copy_segment
copy_segment-read store at buf n h e = rw (
  memcpy-in-bounds buf 0 store at n (omega arith) (omega arith),
  overwrite-take-drop buf store at n e,
)

for_each_segment-write :
    (size at nr : ℕ) (store : List ℕ) (bufs : List (List ℕ))
    → length store ≡ size
    → at ≤ size
    → size < 2 ^ 63
    → nr + length (gather bufs) < 2 ^ 32
    → for_each_segment true size at nr store bufs
      ≡ some (overwrite store at (gather bufs), bufs, nr + min (length (gather bufs)) (size - at))
unfolding for_each_segment
for_each_segment-write size at nr store [] a h s t = rw (overwrite-nil store at) (ground arith)
for_each_segment-write size at nr store (buf ∷ rest) a h s t =
    rw
      (
        clamp_len-eq-min size at (length buf) h s (omega (arith, total)),
        copy_segment-write store at buf len (omega arith) (omega arith),
        position,
        count,
        for_each_segment-write size (at + len) (nr + len) (overwrite store at buf) rest
            (omega (arith, length-overwrite store at buf)) (omega arith) s (omega (arith, total)),
        overwrite-append store at buf (at + len) (gather rest) (omega arith) (omega arith),
      )
      (ap (λ n. some (overwrite store at (buf ++ gather rest), buf ∷ rest, n))
        (omega (arith, total)))
  where
    len : ℕ
    len = min (length buf) (size - at)

    total : length (buf ++ gather rest) ≡ length buf + length (gather rest)
    total = length-append buf (gather rest)

    position : (at + len) % 2 ^ 64 ≡ at + len
    position = omega arith

    count : (nr + len) % 2 ^ 32 ≡ nr + len
    count = omega (arith, total)

for_each_segment-read :
    (size at nr : ℕ) (store : List ℕ) (bufs : List (List ℕ))
    → length store ≡ size
    → at ≤ size
    → size < 2 ^ 63
    → nr + length (gather bufs) < 2 ^ 32
    → for_each_segment false size at nr store bufs
      ≡ some (store, scatter (drop at store) bufs, nr + min (length (gather bufs)) (size - at))
unfolding for_each_segment
for_each_segment-read size at nr store [] a h s t = ground arith
for_each_segment-read size at nr store (buf ∷ rest) a h s t =
    rw
      (
        clamp_len-eq-min size at (length buf) h s (omega (arith, total)),
        copy_segment-read store at buf len (omega arith) (omega arith),
        position,
        count,
        for_each_segment-read size (at + len) (nr + len) store rest a (omega arith) s
            (omega (arith, total)),
        drop-after-copy buf store at len (omega arith),
      )
      (ap
        (λ n. some (
          store,
          overwrite buf 0 (drop at store) ∷ scatter (drop (length buf) (drop at store)) rest,
          n,
        ))
        (omega (arith, total)))
  where
    len : ℕ
    len = min (length buf) (size - at)

    total : length (buf ++ gather rest) ≡ length buf + length (gather rest)
    total = length-append buf (gather rest)

    position : (at + len) % 2 ^ 64 ≡ at + len
    position = omega arith

    count : (nr + len) % 2 ^ 32 ≡ nr + len
    count = omega (arith, total)

-- How many of the request's bytes lie on the device.
abbrev pub on_device : Device → Request → ℕ
on_device dev rq = min (length (gather rq.segments)) (dev.capacity * 512 - rq.sector * 512)

module _ {dev : Device} {rq : Request} (v : IsValid dev) (st : Starts dev rq) where
  -- On a valid device, a write of fewer than 2^32 bytes that starts on it lays its segments, one
  -- after another, over the device's bytes from its sector on; what passes the end is dropped, the
  -- bytes up to there are counted, and no copy leaves the device or a segment.
  pub process_request-write :
      rq.is_write ≡ true
      → process_request dev rq
        ≡ some (
          pos 0,
          record dev { store = overwrite dev.store (rq.sector * 512) (gather rq.segments) },
          rq.segments,
          on_device dev rq,
        )
  unfolding process_request
  process_request-write w =
      let size : to_bytes dev.capacity ≡ dev.capacity * 512 = omega arith in
      let at : to_bytes rq.sector ≡ rq.sector * 512 = omega arith in
      rw
        (
          w,
          size,
          at,
          for_each_segment-write (dev.capacity * 512) (rq.sector * 512) 0 dev.store rq.segments
              v.allocated (omega arith) v.small (omega arith),
        )
        (ap
          (λ n. some (
            pos 0,
            record dev { store = overwrite dev.store (rq.sector * 512) (gather rq.segments) },
            rq.segments,
            n,
          ))
          (omega arith))

  -- On a valid device, a read of fewer than 2^32 bytes that starts on it fills its segments in
  -- turn with the device's bytes from its sector on and counts them; a segment keeps its bytes
  -- past the device's end, and the device does not change.
  pub process_request-read :
      rq.is_write ≡ false
      → process_request dev rq
        ≡ some
            (pos 0, dev, scatter (drop (rq.sector * 512) dev.store) rq.segments, on_device dev rq)
  unfolding process_request
  process_request-read w =
      let size : to_bytes dev.capacity ≡ dev.capacity * 512 = omega arith in
      let at : to_bytes rq.sector ≡ rq.sector * 512 = omega arith in
      rw
        (
          w,
          size,
          at,
          for_each_segment-read (dev.capacity * 512) (rq.sector * 512) 0 dev.store rq.segments
              v.allocated (omega arith) v.small (omega arith),
        )
        (ap (λ n. some (pos 0, dev, scatter (drop (rq.sector * 512) dev.store) rq.segments, n))
          (omega arith))
