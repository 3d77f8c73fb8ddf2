-- ===== src/Disk/Bytes.antt =====
-- The bytes that a request on the disk moves, segment by segment and as a whole.
use l3_dd_trg.Base.{
  ℕ, ◌+◌, ◌*◌, ◌≡◌, ◌≤◌, refl, ap, ◌∙◌, some, List, [], ◌∷◌, length, take, drop, arith,
  length-append, le→leb,
}
use l3_dd_trg.Base.Bytes.{
  overwrite, length-overwrite, gather, scatter, gather-scatter, overwrite-take_of_le,
}
use l3_dd_trg.Sblkdev.{Request}
use l3_dd_trg.Sblkdev.Bio.{fitting, scatter_fitting}
use l3_dd_trg.Disk.{updated, answers, AllWithin, BlockDriver, run}

-- Segments that are filled in turn hold the bytes that were dealt out.
pub gather-scatter_of_le :
    (b : List ℕ) (bufs : List (List ℕ))
    → length (gather bufs) ≤ length b
    → gather (scatter b bufs) ≡ take (length (gather bufs)) b
gather-scatter_of_le b bufs h = gather-scatter b bufs ∙ overwrite-take_of_le (gather bufs) b h

-- All segments of a bio that fits are moved.
pub fitting_all :
    (size at : ℕ) (bufs : List (List ℕ))
    → at + length (gather bufs) ≤ size
    → fitting size at bufs ≡ bufs
fitting_all size at [] h = refl
fitting_all size at (buf ∷ rest) h =
    let total = length-append buf (gather rest) in
    rw (le→leb (at + length buf) size (omega (arith, total)))
      (ap (λ r. buf ∷ r) (fitting_all size (at + length buf) rest (omega (arith, total))))

pub scatter_fitting_all :
    (size at : ℕ) (b : List ℕ) (bufs : List (List ℕ))
    → at + length (gather bufs) ≤ size
    → scatter_fitting size at b bufs ≡ scatter b bufs
scatter_fitting_all size at b [] h = refl
scatter_fitting_all size at b (buf ∷ rest) h =
    let total = length-append buf (gather rest) in
    rw (le→leb (at + length buf) size (omega (arith, total))) (
      ap (λ r. overwrite buf 0 b ∷ r)
        (scatter_fitting_all size (at + length buf) (drop (length buf) b) rest
          (omega (arith, total))))

pub length-updated : (disk : List ℕ) (r : Request) → length (updated disk r) ≡ length disk
length-updated disk r = ground (arith, length-overwrite disk (r.sector * 512) (gather r.segments))

-- Any driver that fills the interface, in a state that holds a disk, answers requests within the
-- disk as the disk does.
pub run_refines :
    (b : BlockDriver) (rs : List Request) {s : b.State} {disk : List ℕ}
    → b.Holds s disk
    → AllWithin (length disk) rs
    → run b s rs ≡ some (answers disk rs)
unfolding run
run_refines b [] h w = refl
run_refines b (r ∷ rs) {s} {disk} h w =
    let (s', served, held) = b.serve_lem s disk r h w.0 in
    let same = length-updated disk r in rw (served, run_refines b rs held (rw same w.1))
