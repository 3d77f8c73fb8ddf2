-- ===== src/Disk/Requests.antt =====
-- The request-based build of blockdrv/sblkdev/device.c as a block driver.
use l3_dd_trg.Base.{
  ℕ, ◌*◌, ◌≡◌, ◌≤◌, refl, ap, ◌∙◌, Option, none, some, List, [], length, drop, arith, length-drop,
  Bool-cases, inl, inr, if◌then◌else◌, ◌>>=◌,
}
use l3_dd_trg.Base.Bytes.{gather}
use l3_dd_trg.Sblkdev.{Device, Request, sts_ok, sts_ioerr, sblkdev_queue_rq}
use l3_dd_trg.Sblkdev.Transfer.{IsValid, Starts, process_request-write, process_request-read}
use l3_dd_trg.Sblkdev.RoundTrip.{after-IsValid}
use l3_dd_trg.Disk.{answer, updated, answers, IsWithin, AllWithin, BlockDriver, run}
use l3_dd_trg.Disk.Bytes.{gather-scatter_of_le, run_refines}

-- What reaches the user of a request: a read's segments, one after another.
abbrev pub delivered : Request → List (List ℕ) → List ℕ
delivered r bufs = if r.is_write then [] else gather bufs

-- The device that holds the disk.
abbrev pub HoldsDisk : Device → List ℕ → Type 0
HoldsDisk dev disk = IsValid dev × (dev.store ≡ disk)

-- `sblkdev_queue_rq`; a request that is ended with an error fails.
unfoldable pub serve_rq : Device → Request → Option (List ℕ × Device)
serve_rq dev r = sblkdev_queue_rq dev r >>= λ (status, dev', bufs, calls). elim status [
  | sts_ok ↦ some (delivered r bufs, dev')
  | sts_ioerr ↦ none
]

-- the device after a request
abbrev pub moved : Device → Request → Device
moved dev r = record dev { store = updated dev.store r }

pub moved-HoldsDisk :
    {dev : Device} (r : Request) → IsValid dev → HoldsDisk (moved dev r) (updated dev.store r)
moved-HoldsDisk {dev} r v = elim (Bool-cases r.is_write) [
  | inl write ↦ rw write (after-IsValid r v, refl)
  | inr read ↦ rw read (v, refl)
]

within-Starts :
    {dev : Device} {r : Request} → IsValid dev → IsWithin (length dev.store) r → Starts dev r
within-Starts v w = record { on_device = omega (arith, v.allocated, w.fits); short = w.short }

-- There are as many bytes as a read within the disk asks for.
pub enough :
    (disk : List ℕ) (r : Request)
    → IsWithin (length disk) r
    → length (gather r.segments) ≤ length (drop (r.sector * 512) disk)
enough disk r w = omega (arith, w.fits, length-drop (r.sector * 512) disk)

serve_rq-eq :
    (dev : Device) (r : Request)
    → IsValid dev
    → IsWithin (length dev.store) r
    → serve_rq dev r ≡ some (answer dev.store r, moved dev r)
unfolding serve_rq sblkdev_queue_rq
serve_rq-eq dev r v w = elim (Bool-cases r.is_write) [
  | inl write ↦ rw (process_request-write v (within-Starts v w) write, write)
  | inr read ↦
      rw (process_request-read v (within-Starts v w) read, read)
        (ap (λ b. some (b, dev))
          (gather-scatter_of_le (drop (r.sector * 512) dev.store) r.segments
            (enough dev.store r w)))
]

pub serve_rq_lem :
    (dev : Device) (disk : List ℕ) (r : Request)
    → HoldsDisk dev disk
    → IsWithin (length disk) r
    → (dev' : Device) × (serve_rq dev r ≡ some (answer disk r, dev'))
      × HoldsDisk dev' (updated disk r)
serve_rq_lem dev disk r h w =
    let w' : IsWithin (length dev.store) r = rw h.1 w in
    (
      moved dev r,
      serve_rq-eq dev r h.0 w' ∙ ap (λ d. some (answer d r, moved dev r)) h.1,
      ((moved-HoldsDisk r h.0).0, ap (λ d. updated d r) h.1),
    )

abbrev pub requests : BlockDriver
requests = record { State = Device; Holds = HoldsDisk; serve = serve_rq; serve_lem = serve_rq_lem }

-- Any sequence of requests within the disk that a valid device holds, reads and writes, of fewer
-- than 2^32 bytes each and in segments of whole sectors of 512 bytes: the request-based build ends
-- each as a success, and gives each read the bytes that the disk has after the writes before it.
pub requests_refine :
    {dev : Device} (rs : List Request)
    → IsValid dev
    → AllWithin (length dev.store) rs
    → run requests dev rs ≡ some (answers dev.store rs)
requests_refine rs v w = run_refines requests rs (v, refl) w
