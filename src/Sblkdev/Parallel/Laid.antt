-- ===== src/Sblkdev/Parallel/Laid.antt =====
-- The bytes of the device while several calls of `process_request` (blockdrv/sblkdev/device.c) are under
-- way, of which none writes where another reads or writes.
use l3_dd_trg.Base.{
  ℕ, zero, suc, ◌+◌, ◌≤◌, ◌<◌, ◌≡◌, ◌⊎◌, inl, inr, ◌∙◌, refl, ap, sym, true, false, Bool-cases,
  List, [], ◌∷◌, ◌++◌, length, get_or, set, if◌then◌else◌, arith,
}
use l3_dd_trg.Base.Bytes.{overwrite, length-overwrite, overwrite-append, gather}
use l3_dd_trg.Sblkdev.{Request}
use l3_dd_trg.Sblkdev.Parallel.{Going, idle}
use l3_dd_trg.Sblkdev.Parallel.Apart.{slice, overwrite_comm, slice-overwrite}
use l3_dd_trg.Sblkdev.Parallel.Moves.{start, total, Fits, IsAt}

-- Both only read, or their ranges do not meet.
abbrev pub IsApart : Request → Request → Type 0
IsApart r q =
    ((r.is_write ≡ false) × (q.is_write ≡ false))
    ⊎ ((start r + total r ≤ start q) ⊎ (start q + total q ≤ start r))

abbrev pub ApartFrom : Request → List Request → Type 0
ApartFrom r [] = Unit
ApartFrom r (q ∷ qs) = IsApart r q × ApartFrom r qs

abbrev pub AllApart : List Request → Type 0
AllApart [] = Unit
AllApart (r ∷ rs) = ApartFrom r rs × AllApart rs

abbrev pub AllFit : ℕ → List Request → Type 0
AllFit size [] = Unit
AllFit size (r ∷ rs) = Fits size r × AllFit size rs

abbrev pub AllAt : List ℕ → List Request → List Going → Type 0
AllAt disk [] [] = Unit
AllAt disk (r ∷ rs) (g ∷ gs) = IsAt disk r g × AllAt disk rs gs
AllAt disk _ _ = ⊥

-- What one call has written, laid over the disk; and what all have.
abbrev pub lay : List ℕ → Request → Going → List ℕ
lay d r g = if r.is_write then overwrite d (start r) (gather g.behind) else d

abbrev pub laid : List ℕ → List Request → List Going → List ℕ
laid disk (r ∷ rs) (g ∷ gs) = lay (laid disk rs gs) r g
laid disk _ _ = disk

-- The bytes that a call moves next, put at its place.
abbrev pub put : List ℕ → Request → Going → List ℕ → List ℕ
put d r g new = if r.is_write then overwrite d (start r + length (gather g.behind)) new else d

abbrev pub no_request : Request
no_request = record { sector = 0; is_write = false; segments = [] }

length-lay : (d : List ℕ) (r : Request) (g : Going) → length (lay d r g) ≡ length d
length-lay d r g = ground (arith, length-overwrite d (start r) (gather g.behind))

pub length-laid :
    (disk : List ℕ) (rs : List Request) (gs : List Going) → length (laid disk rs gs) ≡ length disk
length-laid disk [] gs = refl
length-laid disk (r ∷ rs) [] = refl
length-laid disk (r ∷ rs) (g ∷ gs) = length-lay (laid disk rs gs) r g ∙ length-laid disk rs gs

IsApart-nth :
    (r : Request) (rs : List Request) (i : ℕ)
    → ApartFrom r rs
    → i < length rs
    → IsApart r (get_or rs i no_request)
IsApart-nth r [] i a h = absurd (omega arith)
IsApart-nth r (q ∷ rs) zero a h = a.0
IsApart-nth r (q ∷ rs) (suc i) a h = IsApart-nth r rs i a.1 (omega arith)

pub Fits-nth :
    (size : ℕ) (rs : List Request) (i : ℕ)
    → AllFit size rs
    → i < length rs
    → Fits size (get_or rs i no_request)
Fits-nth size [] i f h = absurd (omega arith)
Fits-nth size (r ∷ rs) zero f h = f.0
Fits-nth size (r ∷ rs) (suc i) f h = Fits-nth size rs i f.1 (omega arith)

pub IsAt-nth :
    (disk : List ℕ) (rs : List Request) (gs : List Going) (i : ℕ)
    → AllAt disk rs gs
    → i < length rs
    → IsAt disk (get_or rs i no_request) (get_or gs i idle)
IsAt-nth disk [] gs i a h = absurd (omega arith)
IsAt-nth disk (r ∷ rs) [] i a h = absurd a
IsAt-nth disk (r ∷ rs) (g ∷ gs) zero a h = a.0
IsAt-nth disk (r ∷ rs) (g ∷ gs) (suc i) a h = IsAt-nth disk rs gs i a.1 (omega arith)

pub AllAt-set :
    (disk : List ℕ) (rs : List Request) (gs : List Going) (i : ℕ) (g' : Going)
    → AllAt disk rs gs
    → IsAt disk (get_or rs i no_request) g'
    → AllAt disk rs (set gs i g')
AllAt-set disk [] [] i g' a k = tt
AllAt-set disk [] (g ∷ gs) i g' a k = absurd a
AllAt-set disk (r ∷ rs) [] i g' a k = absurd a
AllAt-set disk (r ∷ rs) (g ∷ gs) zero g' a k = (k, a.1)
AllAt-set disk (r ∷ rs) (g ∷ gs) (suc i) g' a k = (a.0, AllAt-set disk rs gs i g' a.1 k)

-- If one of them writes, their ranges do not meet.
pub ranges_apart :
    (r q : Request)
    → IsApart r q
    → (r.is_write ≡ true) ⊎ (q.is_write ≡ true)
    → (start r + total r ≤ start q) ⊎ (start q + total q ≤ start r)
ranges_apart r q (inl (a, b)) (inl w) = cc
ranges_apart r q (inl (a, b)) (inr w) = cc
ranges_apart r q (inr far) w = far

-- What one call has written does not meet what another reads.
slice-lay :
    (disk d : List ℕ) (r q : Request) (g : Going)
    → IsAt disk r g
    → IsApart r q ⊎ IsApart q r
    → q.is_write ≡ false
    → slice (start q) (total q) (lay d r g) ≡ slice (start q) (total q) d
slice-lay disk d r q g h a w = elim (Bool-cases r.is_write) [
  | inr reads ↦ rw reads refl
  | inl writes ↦
      let far : (start r + total r ≤ start q) ⊎ (start q + total q ≤ start r) = elim a [
        | inl b ↦ ranges_apart r q b (inl writes)
        | inr b ↦ omega (arith, ranges_apart q r b (inr writes))
      ] in
      rw writes (
        slice-overwrite d (start q) (total q) (start r) (gather g.behind)
          (omega (arith, far, h.sum)))
]

slice-laid :
    (disk : List ℕ) (rs : List Request) (gs : List Going) (q : Request)
    → AllAt disk rs gs
    → ApartFrom q rs
    → q.is_write ≡ false
    → slice (start q) (total q) (laid disk rs gs) ≡ slice (start q) (total q) disk
slice-laid disk [] gs q h a w = refl
slice-laid disk (r ∷ rs) [] q h a w = refl
slice-laid disk (r ∷ rs) (g ∷ gs) q h a w =
    slice-lay disk (laid disk rs gs) r q g h.0 (inr a.0) w ∙ slice-laid disk rs gs q h.1 a.1 w

-- A call that reads finds in its range what was there when all began.
pub laid-agree :
    (disk : List ℕ) (rs : List Request) (gs : List Going) (i : ℕ)
    → AllAt disk rs gs
    → AllApart rs
    → i < length rs
    → let q = get_or rs i no_request in
      q.is_write ≡ false
      → slice (start q) (total q) (laid disk rs gs) ≡ slice (start q) (total q) disk
laid-agree disk [] gs i h a l w = absurd (omega arith)
laid-agree disk (r ∷ rs) [] i h a l w = refl
laid-agree disk (r ∷ rs) (g ∷ gs) zero h a l w = rw w (slice-laid disk rs gs r h.1 a.0 w)
laid-agree disk (r ∷ rs) (g ∷ gs) (suc i) h a l w =
    slice-lay disk (laid disk rs gs) r (get_or rs i no_request) g h.0
      (inl (IsApart-nth r rs i a.0 (omega arith))) w
    ∙ laid-agree disk rs gs i h.1 a.1 (omega arith) w

-- The next bytes of one call, and what another has written.
put-lay :
    (disk d : List ℕ) (r q : Request) (g k : Going) (new : List ℕ)
    → IsAt disk r g
    → IsApart r q
    → length (gather k.behind) + length new ≤ total q
    → put (lay d r g) q k new ≡ lay (put d q k new) r g
put-lay disk d r q g k new h a b = elim (Bool-cases r.is_write) [
  | inr reads ↦ rw reads refl
  | inl writes ↦ elim (Bool-cases q.is_write) [
    | inr reads ↦ rw (writes, reads) refl
    | inl both ↦
        let far = ranges_apart r q a (inl writes) in
        rw (writes, both)
          (overwrite_comm d (start r) (gather g.behind) (start q + length (gather k.behind)) new
            (omega (arith, far, h.sum, b)))
  ]
]

-- The next bytes of a call end up with those that it has written.
pub laid-put :
    (size : ℕ) (disk : List ℕ) (rs : List Request) (gs : List Going) (i : ℕ) (new : List ℕ)
    (g' : Going)
    → length disk ≡ size
    → AllFit size rs
    → AllApart rs
    → AllAt disk rs gs
    → i < length rs
    → let q = get_or rs i no_request in
      let g = get_or gs i idle in
      length (gather g.behind) + length new ≤ total q
      → gather g'.behind ≡ gather g.behind ++ new
      → put (laid disk rs gs) q g new ≡ laid disk rs (set gs i g')
laid-put size disk [] gs i new g' s f a h l b e = absurd (omega arith)
laid-put size disk (r ∷ rs) [] i new g' s f a h l b e = absurd h
laid-put size disk (r ∷ rs) (g ∷ gs) zero new g' s f a h l b e = elim (Bool-cases r.is_write) [
  | inr reads ↦ rw reads refl
  | inl writes ↦
      let long = length-laid disk rs gs in
      rw writes (
        overwrite-append (laid disk rs gs) (start r) (gather g.behind)
          (start r + length (gather g.behind)) new (omega (arith, long, s, (f.0).within))
          (omega (arith, long, s, (f.0).within, (h.0).sum))
        ∙ ap (overwrite (laid disk rs gs) (start r)) (sym e))
]
laid-put size disk (r ∷ rs) (g ∷ gs) (suc i) new g' s f a h l b e =
    put-lay disk (laid disk rs gs) r (get_or rs i no_request) g (get_or gs i idle) new h.0
      (IsApart-nth r rs i a.0 (omega arith)) b
    ∙ ap (λ d. lay d r g) (laid-put size disk rs gs i new g' s f.1 a.1 h.1 (omega arith) b e)
