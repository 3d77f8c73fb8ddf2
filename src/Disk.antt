-- ===== src/Disk.antt =====
-- What the block drivers of blockdrv/ promise their users, whatever their inner build: a disk is
-- its bytes, a request reads or replaces those from its sector on, and requests are served in turn.
-- A driver is an interface; the three data paths are shown to fill it.
pub mod Bytes
pub mod Requests
pub mod Bios
pub mod Older
pub mod Fresh
pub mod Several
pub mod Machine
pub mod Loaded
pub mod AtOnce
mod Tests
use l3_dd_trg.Base.{
  ℕ, ◌+◌, ◌*◌, ◌%◌, ◌^◌, ◌≡◌, ◌≤◌, ◌<◌, Bool, Option, none, some, List, [], ◌∷◌, length, take, drop,
  if◌then◌else◌, ◌>>=◌,
}
use l3_dd_trg.Base.Bytes.{overwrite, gather}
use l3_dd_trg.Sblkdev.{Request}

-- The bytes that a request gives its user.
abbrev pub answer : List ℕ → Request → List ℕ
answer disk r =
    if r.is_write then [] else take (length (gather r.segments)) (drop (r.sector * 512) disk)

-- The disk after a request.
abbrev pub updated : List ℕ → Request → List ℕ
updated disk r = if r.is_write then overwrite disk (r.sector * 512) (gather r.segments) else disk

-- What the disk answers to requests in turn.
abbrev pub answers : List ℕ → List Request → List (List ℕ)
answers disk [] = []
answers disk (r ∷ rs) = answer disk r ∷ answers (updated disk r) rs

-- The block layer hands out segments of whole sectors.
abbrev pub AllWhole : List (List ℕ) → Type 0
AllWhole [] = Unit
AllWhole (buf ∷ bufs) = (length buf % 512 ≡ 0) × AllWhole bufs

-- A request that lies on a disk of `size` bytes.
pub record IsWithin (size : ℕ) (r : Request) : Type 0 where
  pub fits : r.sector * 512 + length (gather r.segments) ≤ size
  pub short : length (gather r.segments) < 2 ^ 32
  pub whole : AllWhole r.segments

abbrev pub AllWithin : ℕ → List Request → Type 0
AllWithin size [] = Unit
AllWithin size (r ∷ rs) = IsWithin size r × AllWithin size rs

-- A driver: its state, what disk a state holds, and the service of one request, which gives the
-- bytes for the user and the new state, or `none` if it fails or touches memory out of bounds.
pub record BlockDriver : Type 1 where
  pub State : Type 0
  pub Holds : State → List ℕ → Type 0
  pub serve : State → Request → Option (List ℕ × State)
  pub serve_lem :
      (s : State) (disk : List ℕ) (r : Request)
      → Holds s disk
      → IsWithin (length disk) r
      → (s' : State) × (serve s r ≡ some (answer disk r, s')) × Holds s' (updated disk r)

module _ (b : BlockDriver) where
  unfoldable pub run : b.State → List Request → Option (List (List ℕ))
  run s [] = some []
  run s (r ∷ rs) = b.serve s r >>= λ (bytes, s'). run s' rs >>= λ more. some (bytes ∷ more)
