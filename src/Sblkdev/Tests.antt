-- ===== src/Sblkdev/Tests.antt =====
-- Runs of the block driver's transfers, and its theorems at concrete inputs.
use l3_dd_trg.Base.{
  ℕ, ◌≤◌, ◌≡◌, ◌≢◌, ◌↔◌, ◌⊎◌, refl, Bool, true, false, none, some, List, [], ◌∷◌, replicate, arith,
}
use l3_dd_trg.Base.Int.{pos, einval, enotty}
use l3_dd_trg.Base.Bytes.{gather, memcpy}
use l3_dd_trg.Sblkdev.{
  Device, Request, process_request, process_bio, sts_ioerr, sts_ok, sblkdev_queue_rq, clamp_len,
  copy_segment, for_each_segment, start_request, end_request,
}
use l3_dd_trg.Sblkdev.Transfer.{IsValid, Starts, process_request-write, process_request-read}
use l3_dd_trg.Sblkdev.RoundTrip.{after, read-write}
use l3_dd_trg.Sblkdev.Bio.{process_bio-write}
use l3_dd_trg.Sblkdev.Geometry.{HdGeometry, Commands, size, sblkdev_ioctl, sblkdev_ioctl-result}
use l3_dd_trg.Sblkdev.Lifecycle.{held_resource}

-- A device of one sector.
abbrev dev : Device
dev = record { capacity = 1; store = replicate 512 7 }

abbrev dev-IsValid : IsValid dev
dev-IsValid = record { allocated = refl; small = omega arith }

abbrev wr : Request
wr = record { sector = 0; is_write = true; segments = (1 ∷ 2 ∷ []) ∷ (3 ∷ []) ∷ [] }

abbrev rd : Request
rd = record { sector = 0; is_write = false; segments = (0 ∷ []) ∷ (0 ∷ 0 ∷ []) ∷ [] }

abbrev wr-Starts : Starts dev wr
wr-Starts = record { on_device = omega arith; short = omega arith }

abbrev rd-Starts : Starts dev rd
rd-Starts = record { on_device = omega arith; short = omega arith }

-- One byte past the device's end.
abbrev long_write : Request
long_write = record {
  sector = 0;
  is_write = true;
  segments = (1 ∷ []) ∷ replicate 512 5 ∷ (2 ∷ []) ∷ [];
}

process_request-write_example :
    process_request dev wr
    ≡ some
        (pos 0, record dev { store = 1 ∷ 2 ∷ 3 ∷ replicate 509 7 }, (1 ∷ 2 ∷ []) ∷ (3 ∷ []) ∷ [], 3)
process_request-write_example = process_request-write dev-IsValid wr-Starts refl

process_request-read_example :
    process_request dev rd ≡ some (pos 0, dev, (7 ∷ []) ∷ (7 ∷ 7 ∷ []) ∷ [], 3)
process_request-read_example = process_request-read dev-IsValid rd-Starts refl

read-write_example :
    (bufs : List (List ℕ)) × (process_request dev wr
      ≡ some (pos 0, after dev wr, (1 ∷ 2 ∷ []) ∷ (3 ∷ []) ∷ [], 3))
    × (process_request (after dev wr) rd ≡ some (pos 0, after dev wr, bufs, 3))
    × (gather bufs ≡ 1 ∷ 2 ∷ 3 ∷ [])
read-write_example = read-write wr rd dev-IsValid refl refl refl refl (omega arith) (omega arith)

process_bio-write_example :
    process_bio dev long_write
    ≡ some (sts_ioerr, record dev { store = 1 ∷ replicate 511 7 }, long_write.segments)
process_bio-write_example =
    process_bio-write long_write dev-IsValid (omega arith) (omega arith) refl

-- A request that starts past the end of the device is copied out of bounds: the length that is left
-- wraps round.
past_the_end : process_request dev (record wr { sector = 2 }) ≡ none
unfolding process_request for_each_segment clamp_len copy_segment memcpy
past_the_end = refl

-- A completion is reported once, as a success.
queue_rq_reports :
    sblkdev_queue_rq dev rd
    ≡ some (sts_ok, dev, (7 ∷ []) ∷ (7 ∷ 7 ∷ []) ∷ [], start_request ∷ end_request sts_ok ∷ [])
unfolding sblkdev_queue_rq process_request for_each_segment clamp_len copy_segment memcpy
queue_rq_reports = refl

abbrev commands : Commands
commands = record { hdio_getgeo = 0x301; cdrom_get_capability = 0x5331 }

sblkdev_ioctl-result_example :
    let (ret, out) = sblkdev_ioctl commands false 2048 0x301 in
    ((g : HdGeometry)
      → out ≡ some g
      → (ret ≡ pos 0) × (◌≡◌ {A = ℕ} 0x301 0x301) × (◌≡◌ {A = Bool} false false) × (2048 ≤ size g))
    × (out ≡ none → (ret ≡ einval) ⊎ (ret ≡ enotty))
    × ((ret ≡ enotty) ↔ ((◌≢◌ {A = ℕ} 0x301 0x301) × (◌≢◌ {A = ℕ} 0x301 0x5331)))
sblkdev_ioctl-result_example = sblkdev_ioctl-result commands false 2048 0x301 (omega arith)
