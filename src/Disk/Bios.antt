-- ===== src/Disk/Bios.antt =====
-- The bio-based build of blockdrv/sblkdev/device.c as a block driver.
use l3_dd_trg.Base.{
  ℕ, ◌+◌, ◌*◌, ◌^◌, ◌≡◌, ◌≤◌, ◌<◌, refl, ap, sym, ◌∙◌, Option, none, some, List, length, drop,
  arith, le→leb, Bool-cases, inl, inr, ◌>>=◌,
}
use l3_dd_trg.Base.Bytes.{gather}
use l3_dd_trg.Sblkdev.{Device, Request, sts_ok, sts_ioerr, process_bio}
use l3_dd_trg.Sblkdev.Transfer.{IsValid}
use l3_dd_trg.Sblkdev.Bio.{process_bio-write, process_bio-read}
use l3_dd_trg.Disk.{answer, updated, IsWithin, AllWithin, BlockDriver, run}
use l3_dd_trg.Disk.Bytes.{gather-scatter_of_le, fitting_all, scatter_fitting_all, run_refines}
use l3_dd_trg.Disk.Requests.{
  delivered, HoldsDisk, moved, moved-HoldsDisk, enough, requests, requests_refine,
}

-- `process_bio`; a bio that is ended with an error fails.
unfoldable pub serve_bio : Device → Request → Option (List ℕ × Device)
serve_bio dev r = process_bio dev r >>= λ (status, dev', bufs). elim status [
  | sts_ok ↦ some (delivered r bufs, dev')
  | sts_ioerr ↦ none
]

-- Positions on the device, with the length of a request added, are far from 2^63.
abbrev IsModest : Device → Type 0
IsModest dev = dev.capacity * 512 < 2 ^ 62

serve_bio-eq :
    (dev : Device) (r : Request)
    → IsValid dev
    → IsModest dev
    → IsWithin (length dev.store) r
    → serve_bio dev r ≡ some (answer dev.store r, moved dev r)
unfolding serve_bio
serve_bio-eq dev r v m w =
    let on : r.sector ≤ dev.capacity = omega (arith, v.allocated, w.fits) in
    let near : dev.capacity * 512 + length (gather r.segments) < 2 ^ 63 = omega (arith, w.short) in
    let fits : r.sector * 512 + length (gather r.segments) ≤ dev.capacity * 512 =
      omega (arith, v.allocated, w.fits) in
    let ok = le→leb _ _ fits in
    elim (Bool-cases r.is_write) [
      | inl write ↦ rw (
        process_bio-write r v on near write,
        ok,
        write,
        fitting_all (dev.capacity * 512) (r.sector * 512) r.segments fits,
      )
      | inr read ↦
          rw
            (
              process_bio-read r v on near read,
              ok,
              read,
              scatter_fitting_all (dev.capacity * 512) (r.sector * 512)
                  (drop (r.sector * 512) dev.store) r.segments fits,
            )
            (ap (λ b. some (b, dev))
              (gather-scatter_of_le (drop (r.sector * 512) dev.store) r.segments
                (enough dev.store r w)))
    ]

abbrev HoldsModest : Device → List ℕ → Type 0
HoldsModest dev disk = HoldsDisk dev disk × IsModest dev

pub serve_bio_lem :
    (dev : Device) (disk : List ℕ) (r : Request)
    → HoldsModest dev disk
    → IsWithin (length disk) r
    → (dev' : Device) × (serve_bio dev r ≡ some (answer disk r, dev'))
      × HoldsModest dev' (updated disk r)
serve_bio_lem dev disk r h w =
    let (valid, same) = h.0 in
    let w' : IsWithin (length dev.store) r = rw same w in
    (
      moved dev r,
      serve_bio-eq dev r valid h.1 w' ∙ ap (λ d. some (answer d r, moved dev r)) same,
      (((moved-HoldsDisk r valid).0, ap (λ d. updated d r) same), h.1),
    )

abbrev pub bios : BlockDriver
bios = record { State = Device; Holds = HoldsModest; serve = serve_bio; serve_lem = serve_bio_lem }

-- On a valid device of fewer than 2^62 bytes, any sequence of requests within it, of fewer than
-- 2^32 bytes each and in segments of whole sectors of 512 bytes, gets the same answers from the
-- request-based build and from the bio-based build.
pub requests-bios :
    {dev : Device} (rs : List Request)
    → IsValid dev
    → IsModest dev
    → AllWithin (length dev.store) rs
    → run requests dev rs ≡ run bios dev rs
requests-bios rs v m w = requests_refine rs v w ∙ sym (run_refines bios rs ((v, refl), m) w)
