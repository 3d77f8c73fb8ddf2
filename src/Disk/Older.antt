-- ===== src/Disk/Older.antt =====
-- blockdrv/older_sblkdrv/sbd.c as a block driver: the block layer hands it a request's segments one
-- after another.
use l3_dd_trg.Base.{
  ℕ, zero, suc, ◌+◌, ◌*◌, ◌/◌, ◌^◌, ◌≡◌, ◌≤◌, ◌<◌, refl, ap, sym, ◌∙◌, Bool, true, false, Option,
  some, List, [], ◌∷◌, ◌++◌, length, take, drop, arith, length-append, drop-drop, le→not-ltb,
  Bool-cases, inl, inr, ◌>>=◌,
}
use l3_dd_trg.Base.Bytes.{overwrite, overwrite-nil, overwrite-append, gather, length-overwrite}
use l3_dd_trg.Sblkdev.{Device, Request}
use l3_dd_trg.Sblkdev.Transfer
use l3_dd_trg.Sbd.{SbdDevice, Chunk, sbd_request}
use l3_dd_trg.Sbd.Transfer.{IsValid, AllChunks, moved, moved_all, sbd_request_lem}
use l3_dd_trg.Disk.{answer, updated, AllWhole, IsWithin, AllWithin, BlockDriver, run}
use l3_dd_trg.Disk.Bytes.{run_refines, length-updated}
use l3_dd_trg.Disk.Requests.{delivered, requests, requests_refine}

-- A request's segments as the block layer hands them to `sbd_request`.
abbrev chunks : ℕ → Bool → List (List ℕ) → List Chunk
chunks sector w [] = []
chunks sector w (buf ∷ bufs) =
    record { sector = sector; nsect = length buf / 512; buffer = buf; is_write = w }
    ∷ chunks (sector + length buf / 512) w bufs

-- `sbd_request` with blocks of 512 bytes.
unfoldable pub serve_sbd : SbdDevice → Request → Option (List ℕ × SbdDevice)
serve_sbd dev r = sbd_request 512 dev (chunks r.sector r.is_write r.segments) >>= λ (dev', bufs).
    some (delivered r bufs, dev')

take-nil : (n : ℕ) → take {A = ℕ} n [] ≡ []
take-nil zero = refl
take-nil (suc n) = refl

take-add : (m n : ℕ) (xs : List ℕ) → take (m + n) xs ≡ take m xs ++ take n (drop m xs)
take-add zero n xs = let e : 0 + n ≡ n = omega arith in rw e
take-add (suc m) n [] = take-nil (suc m + n) ∙ sym (take-nil n)
take-add (suc m) n (x ∷ xs) =
    let e : suc m + n ≡ suc (m + n) = omega arith in rw e (ap (λ r. x ∷ r) (take-add m n xs))

module _ (size : ℕ) (small : size < 2 ^ 63) where
  chunks-AllChunks :
      (sector : ℕ) (w : Bool) (bufs : List (List ℕ))
      → AllWhole bufs
      → sector * 512 + length (gather bufs) ≤ size
      → AllChunks (chunks sector w bufs)
  chunks-AllChunks sector w [] a h = tt
  chunks-AllChunks sector w (buf ∷ bufs) a h =
      let total = length-append buf (gather bufs) in
      (
        record { whole = omega (arith, a.0); near = omega (arith, total) },
        chunks-AllChunks (sector + length buf / 512) w bufs a.1 (omega (arith, total, a.0)),
      )

  moved_all-write :
      (dev : SbdDevice) (sector : ℕ) (bufs : List (List ℕ))
      → length dev.store ≡ size
      → dev.size ≡ size
      → AllWhole bufs
      → sector * 512 + length (gather bufs) ≤ size
      → moved_all dev (chunks sector true bufs)
        ≡ (record dev { store = overwrite dev.store (sector * 512) (gather bufs) }, bufs)
  moved_all-write dev sector [] l e a h =
      ap (λ s. (record dev { store = s }, [])) (sym (overwrite-nil dev.store (sector * 512)))
  moved_all-write dev sector (buf ∷ bufs) l e a h =
      let total = length-append buf (gather bufs) in
      let sectors = length buf / 512 in
      let inside = le→not-ltb dev.size (sector * 512 + sectors * 512) (omega (arith, total, a.0)) in
      let next = record dev { store = overwrite dev.store (sector * 512) buf } in
      let ih =
        moved_all-write next (sector + sectors) bufs
          (length-overwrite dev.store (sector * 512) buf ∙ l) e a.1 (omega (arith, total, a.0)) in
      let joined =
        overwrite-append dev.store (sector * 512) buf ((sector + sectors) * 512) (gather bufs)
          (omega (arith, total, l)) (omega (arith, total, l, a.0)) in
      rw (inside, ih, joined)

  moved_all-read :
      (dev : SbdDevice) (sector : ℕ) (bufs : List (List ℕ))
      → length dev.store ≡ size
      → dev.size ≡ size
      → AllWhole bufs
      → sector * 512 + length (gather bufs) ≤ size
      → ((moved_all dev (chunks sector false bufs)).0 ≡ dev)
        × (gather (moved_all dev (chunks sector false bufs)).1
            ≡ take (length (gather bufs)) (drop (sector * 512) dev.store))
  moved_all-read dev sector [] l e a h = (refl, refl)
  moved_all-read dev sector (buf ∷ bufs) l e a h =
      let total = length-append buf (gather bufs) in
      let sectors = length buf / 512 in
      let inside = le→not-ltb dev.size (sector * 512 + sectors * 512) (omega (arith, total, a.0)) in
      let ih = moved_all-read dev (sector + sectors) bufs l e a.1 (omega (arith, total, a.0)) in
      let bytes : sectors * 512 ≡ length buf = omega (arith, a.0) in
      let next : (sector + sectors) * 512 ≡ sector * 512 + length buf = omega (arith, a.0) in
      let rest = chunks (sector + sectors) false bufs in
      let first : Chunk = record {
        sector = sector;
        nsect = sectors;
        buffer = buf;
        is_write = false;
      } in
      let read = take (sectors * 512) (drop (sector * 512) dev.store) in
      let here : moved dev first ≡ (dev, read) = rw inside in
      (
        ap (λ m. (moved_all m.0 rest).0) here ∙ ih.0,
        ap (λ m. m.1 ++ gather (moved_all m.0 rest).1) here
            ∙ rw (ih.1, total, bytes, next, take-add)
                (ap
                  (λ xs.
                    take (length buf) (drop (sector * 512) dev.store)
                    ++ take (length (gather bufs)) xs)
                  (sym (drop-drop (length buf) (sector * 512) dev.store))),
      )

-- The device that holds the disk.
abbrev HoldsOlder : SbdDevice → List ℕ → Type 0
HoldsOlder dev disk = IsValid dev × (dev.store ≡ disk)

-- the device after a request
abbrev after : SbdDevice → Request → SbdDevice
after dev r = record dev { store = updated dev.store r }

after-HoldsOlder :
    {dev : SbdDevice} (r : Request) → IsValid dev → HoldsOlder (after dev r) (updated dev.store r)
after-HoldsOlder {dev} r v =
    (record { allocated = length-updated dev.store r ∙ v.allocated; small = v.small }, refl)

serve_sbd-eq :
    (dev : SbdDevice) (r : Request)
    → IsValid dev
    → IsWithin (length dev.store) r
    → serve_sbd dev r ≡ some (answer dev.store r, after dev r)
unfolding serve_sbd
serve_sbd-eq dev r v w =
    let fits : r.sector * 512 + length (gather r.segments) ≤ dev.size =
      omega (arith, v.allocated, w.fits) in
    elim (Bool-cases r.is_write) [
      | inl write ↦ rw (
        write,
        (sbd_request_lem dev (chunks r.sector true r.segments) v
            (chunks-AllChunks dev.size v.small r.sector true r.segments w.whole fits)).0,
        moved_all-write dev.size v.small dev r.sector r.segments v.allocated refl w.whole fits,
      )
      | inr read ↦
          let moved =
            moved_all-read dev.size v.small dev r.sector r.segments v.allocated refl w.whole fits in
          rw (
            read,
            (sbd_request_lem dev (chunks r.sector false r.segments) v
                (chunks-AllChunks dev.size v.small r.sector false r.segments w.whole fits)).0,
            moved.0,
            moved.1,
          )
    ]

pub serve_sbd_lem :
    (dev : SbdDevice) (disk : List ℕ) (r : Request)
    → HoldsOlder dev disk
    → IsWithin (length disk) r
    → (dev' : SbdDevice) × (serve_sbd dev r ≡ some (answer disk r, dev'))
      × HoldsOlder dev' (updated disk r)
serve_sbd_lem dev disk r h w =
    let w' : IsWithin (length dev.store) r = rw h.1 w in
    (
      after dev r,
      serve_sbd-eq dev r h.0 w' ∙ ap (λ d. some (answer d r, after dev r)) h.1,
      ((after-HoldsOlder r h.0).0, ap (λ d. updated d r) h.1),
    )

abbrev pub older : BlockDriver
older = record {
  State = SbdDevice;
  Holds = HoldsOlder;
  serve = serve_sbd;
  serve_lem = serve_sbd_lem;
}

-- With valid devices of the same bytes, the older one with its default of 512 bytes for a block,
-- any sequence of requests within them, of fewer than 2^32 bytes each and in segments of whole
-- sectors of 512 bytes, gets the same answers from the older driver and from the newer one.
pub older-requests :
    {old : SbdDevice} {new : Device} (rs : List Request)
    → IsValid old
    → Transfer.IsValid new
    → old.store ≡ new.store
    → AllWithin (length new.store) rs
    → run older old rs ≡ run requests new rs
older-requests rs v v' same w = run_refines older rs (v, same) w ∙ sym (requests_refine rs v' w)
