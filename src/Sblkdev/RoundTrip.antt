-- ===== src/Sblkdev/RoundTrip.antt =====
-- What a later request sees of an earlier one (blockdrv/sblkdev/device.c, `process_request`).
use l3_dd_trg.Base.{
  ℕ, ◌+◌, ◌*◌, ◌^◌, Bool-cases, inl, inr, ◌≤◌, ◌<◌, ◌≡◌, ◌⊎◌, refl, ap, ap₂, ◌∙◌, true, false, some,
  List, length, arith, drop, length-drop, get_or,
}
use l3_dd_trg.Base.Int.{ℤ, pos}
use l3_dd_trg.Base.Bytes.{
  overwrite, length-overwrite, drop-overwrite, overwrite_back, gather, scatter, gather-scatter,
  get_or-overwrite_outside,
}
use l3_dd_trg.Sblkdev.{Device, Request, process_request}
use l3_dd_trg.Sblkdev.Transfer.{
  IsValid, Starts, on_device, process_request-write, process_request-read,
}

-- the device after the request
abbrev pub after : Device → Request → Device
after dev rq = record dev { store = overwrite dev.store (rq.sector * 512) (gather rq.segments) }

pub after-IsValid : {dev : Device} (rq : Request) → IsValid dev → IsValid (after dev rq)
after-IsValid {dev} rq v = record {
  allocated = length-overwrite dev.store (rq.sector * 512) (gather rq.segments) ∙ v.allocated;
  small = v.small;
}

-- On a valid device, a write of fewer than 2^32 bytes that lies on it, then a read of as many
-- bytes from the same sector, however segmented: both succeed in full, and the read returns the
-- bytes that were written.
pub read-write :
    {dev : Device} (wr rd : Request)
    → IsValid dev
    → wr.is_write ≡ true
    → rd.is_write ≡ false
    → rd.sector ≡ wr.sector
    → length (gather rd.segments) ≡ length (gather wr.segments)
    → wr.sector * 512 + length (gather wr.segments) ≤ dev.capacity * 512
    → length (gather wr.segments) < 2 ^ 32
    → (bufs : List (List ℕ)) × (process_request dev wr
        ≡ some (pos 0, after dev wr, wr.segments, length (gather wr.segments)))
      × (process_request (after dev wr) rd
          ≡ some (pos 0, after dev wr, bufs, length (gather wr.segments)))
      × (gather bufs ≡ gather wr.segments)
read-write {dev} wr rd v w r s l fits short =
    let whole : on_device dev wr ≡ length (gather wr.segments) = omega arith in
    let same : on_device (after dev wr) rd ≡ length (gather wr.segments) =
      omega (arith, ap (λ k. k * 512) s, l) in
    (
      scatter (drop (wr.sector * 512) (after dev wr).store) rd.segments,
      process_request-write v (record { on_device = omega arith; short = short }) w
          ∙ ap (λ n. some (pos 0, after dev wr, wr.segments, n)) whole,
      process_request-read (after-IsValid wr v)
            (record { on_device = omega (arith, s); short = omega (arith, l) }) r
          ∙ ap₂
              (λ k n.
                some (
                  pos 0,
                  after dev wr,
                  scatter (drop (k * 512) (after dev wr).store) rd.segments,
                  n,
                ))
              s same,
      rw (gather-scatter, drop-overwrite)
          (overwrite_back (gather rd.segments) (drop (wr.sector * 512) dev.store)
            (gather wr.segments) l
            (omega (arith, length-drop (wr.sector * 512) dev.store, v.allocated))),
    )

-- No write changes a byte of the device outside of the range that it names.
process_request-frame :
    {dev dev' : Device} {rq : Request} {ret : ℤ} {bufs : List (List ℕ)} {n : ℕ}
    → IsValid dev
    → Starts dev rq
    → process_request dev rq ≡ some (ret, dev', bufs, n)
    → (q z : ℕ) → (q < rq.sector * 512) ⊎ (rq.sector * 512 + length (gather rq.segments) ≤ q)
    → IsValid dev' × (get_or dev'.store q z ≡ get_or dev.store q z)
process_request-frame {dev} {dev'} {rq} v st e q z outside = elim (Bool-cases rq.is_write) [
  | inl w ↦
      let same : dev' ≡ after dev rq = cc (process_request-write v st w) in
      rw same (
        after-IsValid rq v,
        get_or-overwrite_outside dev.store (rq.sector * 512) (gather rq.segments) q z outside,
      )
  | inr r ↦ let same : dev' ≡ dev = cc (process_request-read v st r) in rw same (v, refl)
]
