-- ===== src/Disk/Fresh.antt =====
-- The device that `sblkdev_add` of blockdrv/sblkdev/device.c allocates, and what a catalog's capacity
-- makes of it.
use l3_dd_trg.Base.{
  ℕ, ◌+◌, ◌*◌, ◌^◌, ◌≡◌, ◌<◌, refl, ap, ◌∙◌, Bool, true, false, none, some, List, ◌∷◌, length,
  replicate, length-replicate, arith,
}
use l3_dd_trg.Base.Bytes.{memcpy}
use l3_dd_trg.Sblkdev.{
  Device, Request, to_bytes, clamp_len, copy_segment, for_each_segment, process_request,
}
use l3_dd_trg.Sblkdev.Transfer.{IsValid}
use l3_dd_trg.Disk.{answers, AllWithin, run}
use l3_dd_trg.Disk.Requests.{requests, requests_refine}

-- `dev->capacity` and `dev->data`, which `kvzalloc` gives zeroed.
abbrev pub new_device : ℕ → Device
new_device capacity = record { capacity = capacity; store = replicate (to_bytes capacity) 0 }

-- The new device of a capacity of up to 2^63 bytes is a disk of zeros of that size: any sequence of
-- requests within it is answered as that disk answers it.
new_device-requests :
    (capacity : ℕ) (rs : List Request)
    → capacity * 512 < 2 ^ 63
    → AllWithin (capacity * 512) rs
    → run requests (new_device capacity) rs ≡ some (answers (replicate (capacity * 512) 0) rs)
new_device-requests capacity rs small within =
    let bytes : to_bytes capacity ≡ capacity * 512 = omega arith in
    let size : length (replicate (to_bytes capacity) 0) ≡ capacity * 512 =
      length-replicate (to_bytes capacity) 0 ∙ bytes in
    let valid : IsValid (new_device capacity) = record { allocated = size; small = small } in
    let here : AllWithin (length (replicate (to_bytes capacity) 0)) rs = rw size within in
    requests_refine rs valid here ∙ ap (λ n. some (answers (replicate n 0) rs)) bytes

copy_past_end :
    (is_write : Bool) (store : List ℕ) (at : ℕ) (buf : List ℕ) (len : ℕ)
    → length store < at + len
    → copy_segment is_write store at buf len ≡ none
unfolding copy_segment memcpy
copy_past_end true store at buf len h = ground (arith, h)
copy_past_end false store at buf len h = ground (arith, h)

clamp_len-wraps :
    (size at n : ℕ) → size < at → at < 2 ^ 63 → n < 2 ^ 32 → size < at + clamp_len size at n
unfolding clamp_len
clamp_len-wraps size at n h k l = ground arith

-- The size in bytes of 2^55 + k sectors wraps to that of k: the first segment of a request for a
-- sector from k + 1 on, which the capacity allows, is copied out of the device's bounds.
pub new_device-overruns :
    (k : ℕ) (rq : Request) (buf : List ℕ) (rest : List (List ℕ))
    → rq.segments ≡ buf ∷ rest
    → k < rq.sector
    → rq.sector < 2 ^ 54
    → length buf < 2 ^ 32
    → process_request (new_device (2 ^ 55 + k)) rq ≡ none
unfolding process_request for_each_segment
new_device-overruns k rq buf rest e h l s =
    let size : to_bytes (2 ^ 55 + k) ≡ k * 512 = omega arith in
    let at : to_bytes rq.sector ≡ rq.sector * 512 = omega arith in
    let long =
      clamp_len-wraps (k * 512) (rq.sector * 512) (length buf) (omega arith) (omega arith) s in
    let fails =
      copy_past_end rq.is_write (replicate (k * 512) 0) (rq.sector * 512) buf
        (clamp_len (k * 512) (rq.sector * 512) (length buf))
        (omega (arith, long, length-replicate {A = ℕ} (k * 512) 0)) in
    rw (e, size, at, fails) refl
