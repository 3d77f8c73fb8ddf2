-- ===== src/Disk/AtOnce.antt =====
-- Requests that the request-based build of blockdrv/sblkdev (device.c) serves at once, against the same
-- requests served one after another.
use l3_dd_trg.Base.{
  ℕ, zero, suc, ◌^◌, ◌≤◌, ◌<◌, ◌≡◌, inl, inr, ◌∙◌, refl, ap, ap₂, sym, true, Bool-cases, some, List,
  [], ◌∷◌, ◌++◌, append-nil, length, get_or, take, drop, map, arith,
}
use l3_dd_trg.Base.Bytes.{gather, overwrite}
use l3_dd_trg.Sblkdev.{Device, Request, to_bytes}
use l3_dd_trg.Sblkdev.Transfer.{IsValid}
use l3_dd_trg.Sblkdev.Parallel.{Going, begin, Busy, idle, go_all, begin_all}
use l3_dd_trg.Sblkdev.Parallel.Apart.{slice-overwrite, overwrite_comm}
use l3_dd_trg.Sblkdev.Parallel.Moves.{start, total, IsAt}
use l3_dd_trg.Sblkdev.Parallel.Laid.{
  IsApart, ApartFrom, AllApart, AllFit, AllAt, lay, laid, no_request, ranges_apart,
}
use l3_dd_trg.Sblkdev.Parallel.Mixed.{
  Under, turns_of, TurnsWithin, AllAt-length, begin-AllAt, laid-begin, go_all_lem,
}
use l3_dd_trg.Disk.{answer, updated, answers, AllWithin, run}
use l3_dd_trg.Disk.Requests.{delivered, requests, requests_refine}

-- The disk after requests in turn.
abbrev pub disk_after : List ℕ → List Request → List ℕ
disk_after disk [] = disk
disk_after disk (r ∷ rs) = disk_after (updated disk r) rs

-- What reaches the users of the calls.
abbrev pub replies : List Request → List Going → List (List ℕ)
replies (r ∷ rs) (g ∷ gs) = delivered r g.behind ∷ replies rs gs
replies _ _ = []

-- The loops are over.
abbrev pub AllOver : List Going → Type 0
AllOver [] = Unit
AllOver (g ∷ gs) = (g.ahead ≡ []) × AllOver gs

-- Every call goes on as often as it has segments.
abbrev pub EnoughTurns : List Request → List ℕ → Type 0
EnoughTurns rs turns =
    (i : ℕ) → i < length rs → length (get_or rs i no_request).segments ≤ turns_of i turns

updated_comm :
    (disk : List ℕ) (r q : Request)
    → IsApart r q
    → updated (updated disk r) q ≡ updated (updated disk q) r
updated_comm disk r q a = elim (Bool-cases r.is_write) [
  | inr reads ↦ rw reads refl
  | inl writes ↦ elim (Bool-cases q.is_write) [
    | inr reads ↦ rw (writes, reads) refl
    | inl both ↦
        rw (writes, both)
          (overwrite_comm disk (start r) (gather r.segments) (start q) (gather q.segments)
            (ranges_apart r q a (inl writes)))
  ]
]

answer-updated :
    (disk : List ℕ) (q r : Request) → IsApart q r → answer (updated disk q) r ≡ answer disk r
answer-updated disk q r a = elim (Bool-cases r.is_write) [
  | inl writes ↦ rw writes refl
  | inr reads ↦ elim (Bool-cases q.is_write) [
    | inr both ↦ rw (reads, both) refl
    | inl writes ↦
        rw (reads, writes)
          (slice-overwrite disk (start r) (total r) (start q) (gather q.segments)
            (omega (arith, ranges_apart q r a (inl writes))))
  ]
]

disk_after-updated :
    (disk : List ℕ) (q : Request) (rs : List Request)
    → ApartFrom q rs
    → disk_after (updated disk q) rs ≡ updated (disk_after disk rs) q
disk_after-updated disk q [] a = refl
disk_after-updated disk q (r ∷ rs) a =
    ap (λ d. disk_after d rs) (updated_comm disk q r a.0)
    ∙ disk_after-updated (updated disk r) q rs a.1

answers-updated :
    (disk : List ℕ) (q : Request) (rs : List Request)
    → ApartFrom q rs
    → answers (updated disk q) rs ≡ answers disk rs
answers-updated disk q [] a = refl
answers-updated disk q (r ∷ rs) a =
    ap₂ (λ x y. x ∷ y) (answer-updated disk q r a.0)
      (ap (λ d. answers d rs) (updated_comm disk q r a.0)
        ∙ answers-updated (updated disk r) q rs a.1)

-- A call whose loop is over has moved all that it was to move.
over-whole :
    (disk : List ℕ) (r : Request) (g : Going)
    → IsAt disk r g
    → g.ahead ≡ []
    → r.is_write ≡ true
    → gather g.behind ≡ gather r.segments
over-whole disk r g h e w =
    sym (append-nil (gather g.behind)) ∙ ap (λ l. gather g.behind ++ gather l) (sym e) ∙ h.written w

lay-updated :
    (disk d : List ℕ) (r : Request) (g : Going)
    → IsAt disk r g
    → g.ahead ≡ []
    → lay d r g ≡ updated d r
lay-updated disk d r g h e = elim (Bool-cases r.is_write) [
  | inr reads ↦ rw reads refl
  | inl writes ↦ rw writes (ap (overwrite d (start r)) (over-whole disk r g h e writes))
]

delivered-answer :
    (disk : List ℕ) (r : Request) (g : Going)
    → IsAt disk r g
    → g.ahead ≡ []
    → delivered r g.behind ≡ answer disk r
delivered-answer disk r g h e = elim (Bool-cases r.is_write) [
  | inl writes ↦ rw writes refl
  | inr reads ↦
      let all : length (gather g.behind) ≡ total r =
        omega (arith, h.sum, ap (λ l. length (gather l)) e) in
      rw reads (h.filled reads ∙ ap (λ n. take n (drop (start r) disk)) all)
]

laid-disk_after :
    (disk : List ℕ) (rs : List Request) (gs : List Going)
    → AllAt disk rs gs
    → AllOver gs
    → AllApart rs
    → laid disk rs gs ≡ disk_after disk rs
laid-disk_after disk [] gs h o a = refl
laid-disk_after disk (r ∷ rs) [] h o a = absurd h
laid-disk_after disk (r ∷ rs) (g ∷ gs) h o a =
    lay-updated disk (laid disk rs gs) r g h.0 o.0
    ∙ ap (λ d. updated d r) (laid-disk_after disk rs gs h.1 o.1 a.1)
    ∙ sym (disk_after-updated disk r rs a.0)

replies-answers :
    (disk : List ℕ) (rs : List Request) (gs : List Going)
    → AllAt disk rs gs
    → AllOver gs
    → AllApart rs
    → replies rs gs ≡ answers disk rs
replies-answers disk [] gs h o a = refl
replies-answers disk (r ∷ rs) [] h o a = absurd h
replies-answers disk (r ∷ rs) (g ∷ gs) h o a =
    ap₂ (λ x y. x ∷ y) (delivered-answer disk r g h.0 o.0)
      (replies-answers disk rs gs h.1 o.1 a.1 ∙ sym (answers-updated disk r rs a.0))

within-AllFit : (size : ℕ) (rs : List Request) → AllWithin size rs → AllFit size rs
within-AllFit size [] w = tt
within-AllFit size (r ∷ rs) w =
    (record { within = (w.0).fits; short = (w.0).short }, within-AllFit size rs w.1)

empty-length : (l : List (List ℕ)) → length l ≡ 0 → l ≡ []
empty-length [] h = refl
empty-length (x ∷ l) h = absurd (omega arith)

all-AllOver :
    (gs : List Going) → ((i : ℕ) → i < length gs → length (get_or gs i idle).ahead ≡ 0) → AllOver gs
all-AllOver [] h = tt
all-AllOver (g ∷ gs) h =
    (empty-length g.ahead (h 0 (omega arith)), all-AllOver gs (λ i l. h (suc i) (omega arith)))

to_move-begin :
    (rs : List Request) (i : ℕ)
    → length (get_or (map begin rs) i idle).ahead ≡ length (get_or rs i no_request).segments
unfolding begin
to_move-begin [] i = refl
to_move-begin (r ∷ rs) zero = refl
to_move-begin (r ∷ rs) (suc i) = to_move-begin rs i

-- Requests within the disk that a valid device holds, of fewer than 2^32 bytes each and in
-- segments of whole sectors of 512 bytes, of which none writes where another reads or writes, are
-- served at once: the turns of their loops, a segment at a time, come in any order, in which every
-- call has at least as many as its request has segments. No copy leaves the device or a segment,
-- all loops end, each user is given what the requests in turn would give, and the device holds
-- what they would leave.
pub at_once :
    (dev : Device) (rs : List Request) (turns : List ℕ)
    → IsValid dev
    → AllWithin (length dev.store) rs
    → AllApart rs
    → TurnsWithin (length rs) turns
    → EnoughTurns rs turns
    → (s : Busy) × (go_all (to_bytes dev.capacity) (begin_all dev rs) turns ≡ some s)
      × AllOver s.calls
      × (run requests dev rs ≡ some (replies rs s.calls))
      × (s.store ≡ disk_after dev.store rs)
unfolding begin_all
at_once dev rs turns v w a t enough =
    let size = to_bytes dev.capacity in
    let bytes : size ≡ length dev.store = omega (arith, v.allocated, v.small) in
    let small : size < 2 ^ 63 = omega (arith, v.allocated, v.small) in
    let fit : AllFit size rs = rw bytes (within-AllFit (length dev.store) rs w) in
    let begun : Under dev.store rs (record { store = dev.store; calls = map begin rs }) = record {
      stored = sym (laid-begin dev.store rs);
      calls_at = begin-AllAt size dev.store rs small fit;
    } in
    let (s, went, u, many) =
      go_all_lem size dev.store rs small (sym bytes) fit a
        (record { store = dev.store; calls = map begin rs }) turns begun t in
    let many_calls = AllAt-length dev.store rs s.calls u.calls_at in
    let over : AllOver s.calls =
      all-AllOver s.calls (λ i l.
        omega (arith, many i, to_move-begin rs i, enough i (omega (arith, l, many_calls)))) in
    (
      s,
      went,
      over,
      requests_refine rs v w
          ∙ ap some (sym (replies-answers dev.store rs s.calls u.calls_at over a)),
      u.stored ∙ laid-disk_after dev.store rs s.calls u.calls_at over a,
    )
