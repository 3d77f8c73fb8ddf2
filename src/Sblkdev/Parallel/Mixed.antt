-- ===== src/Sblkdev/Parallel/Mixed.antt =====
-- Calls of `process_request` (blockdrv/sblkdev/device.c) whose turns come in any order.
use l3_dd_trg.Base.{
  ℕ, suc, ◌-◌, ◌^◌, ◌<◌, ◌≡◌, ◌≢◌, inl, inr, ◌∙◌, refl, ap, false, Bool-cases, some, List, [], ◌∷◌,
  length, get_or, set, get_or-set_self, get_or-set_ne, ◌==◌, ==_refl, map, if◌then◌else◌, arith,
}
use l3_dd_trg.Base.Bytes.{overwrite-nil}
use l3_dd_trg.Sblkdev.{Request}
use l3_dd_trg.Sblkdev.Parallel.{Going, begin, segment_turn, Busy, idle, go_on, go_all}
use l3_dd_trg.Sblkdev.Parallel.Apart.{slice}
use l3_dd_trg.Sblkdev.Parallel.Moves.{start, total, Fits, IsAt, turn_at_lem}
use l3_dd_trg.Sblkdev.Parallel.Laid.{
  AllApart, AllFit, AllAt, laid, no_request, length-laid, Fits-nth, IsAt-nth, AllAt-set, laid-agree,
  laid-put, put,
}

-- The calls of these requests are under way on a device that held `disk` when they began.
pub record Under (disk : List ℕ) (rs : List Request) (s : Busy) : Type 0 where
  pub stored : s.store ≡ laid disk rs s.calls
  pub calls_at : AllAt disk rs s.calls

-- How many segments a call has yet to move.
abbrev to_move : Busy → ℕ → ℕ
to_move s i = length (get_or s.calls i idle).ahead

-- How often a call goes on.
abbrev pub turns_of : ℕ → List ℕ → ℕ
turns_of i [] = 0
turns_of i (j ∷ turns) = let rest = turns_of i turns in if j == i then suc rest else rest

abbrev pub TurnsWithin : ℕ → List ℕ → Type 0
TurnsWithin n [] = Unit
TurnsWithin n (i ∷ turns) = (i < n) × TurnsWithin n turns

pub AllAt-length :
    (disk : List ℕ) (rs : List Request) (gs : List Going) → AllAt disk rs gs → length gs ≡ length rs
AllAt-length disk [] [] h = refl
AllAt-length disk [] (g ∷ gs) h = absurd h
AllAt-length disk (r ∷ rs) [] h = absurd h
AllAt-length disk (r ∷ rs) (g ∷ gs) h = ap suc (AllAt-length disk rs gs h.1)

begin-IsAt :
    (size : ℕ) (disk : List ℕ) (r : Request) → size < 2 ^ 63 → Fits size r → IsAt disk r (begin r)
unfolding begin
begin-IsAt size disk r small f = record {
  way = refl;
  place = omega (arith, f.within);
  counted = refl;
  sum = omega arith;
  written = λ w. refl;
  filled = λ w. refl;
}

pub begin-AllAt :
    (size : ℕ) (disk : List ℕ) (rs : List Request)
    → size < 2 ^ 63
    → AllFit size rs
    → AllAt disk rs (map begin rs)
begin-AllAt size disk [] small f = tt
begin-AllAt size disk (r ∷ rs) small f =
    (begin-IsAt size disk r small f.0, begin-AllAt size disk rs small f.1)

pub laid-begin : (disk : List ℕ) (rs : List Request) → laid disk rs (map begin rs) ≡ disk
unfolding begin
laid-begin disk [] = refl
laid-begin disk (r ∷ rs) = elim (Bool-cases r.is_write) [
  | inl writes ↦
      rw writes (overwrite-nil (laid disk rs (map begin rs)) (start r) ∙ laid-begin disk rs)
  | inr reads ↦ rw reads (laid-begin disk rs)
]

one_less :
    (disk : List ℕ) (rs : List Request) (s : Busy) (g' : Going) (i : ℕ)
    → Under disk rs s
    → i < length rs
    → length g'.ahead ≡ to_move s i - 1
    → (j : ℕ)
    → length (get_or (set s.calls i g') j idle).ahead
      ≡ (if i == j then to_move s j - 1 else to_move s j)
one_less disk rs s g' i u l less j = elim (Bool-cases (i == j)) [
  | inl same ↦
      let e : j ≡ i = ground (arith, same) in
      let within = AllAt-length disk rs s.calls u.calls_at in
      rw (e, ==_refl i)
        (ap (λ g. length g.ahead) (get_or-set_self s.calls i g' idle (omega (arith, within, l)))
          ∙ less)
  | inr other ↦
      let ne : i ≢ j = ground (arith, other) in
      rw other (ap (λ g. length g.ahead) (get_or-set_ne s.calls i j g' idle ne))
]

module _ (size : ℕ) (disk : List ℕ) (rs : List Request) (small : size < 2 ^ 63)
    (long : length disk ≡ size) (fit : AllFit size rs) (apart : AllApart rs) where
  go_on_lem :
      (s : Busy) (i : ℕ)
      → Under disk rs s
      → i < length rs
      → (s' : Busy) × (go_on size s i ≡ some s')
        × Under disk rs s'
        × ((j : ℕ) → to_move s' j ≡ (if i == j then to_move s j - 1 else to_move s j))
  unfolding go_on segment_turn
  go_on_lem s i u l =
      let r = get_or rs i no_request in
      let g = get_or s.calls i idle in
      let agree = λ (w : r.is_write ≡ false).
        ap (slice (start r) (total r)) u.stored
        ∙ laid-agree disk rs s.calls i u.calls_at apart l w in
      let (store', g', turned, m) =
        turn_at_lem size disk s.store r small
          (ap length u.stored ∙ length-laid disk rs s.calls ∙ long) (Fits-nth size rs i fit l) agree
          g g.ahead refl (IsAt-nth disk rs s.calls i u.calls_at l) in
      (
        record { store = store'; calls = set s.calls i g' },
        rw turned refl,
        record {
          stored =
              m.stored
              ∙ ap (λ d. put d r g m.new) u.stored
              ∙ laid-put size disk rs s.calls i m.new g' long fit apart u.calls_at l m.bound
                  m.grown;
          calls_at = AllAt-set disk rs s.calls i g' u.calls_at m.kept;
        },
        one_less disk rs s g' i u l m.less,
      )

  pub go_all_lem :
      (s : Busy) (turns : List ℕ)
      → Under disk rs s
      → TurnsWithin (length rs) turns
      → (s' : Busy) × (go_all size s turns ≡ some s')
        × Under disk rs s'
        × ((j : ℕ) → to_move s' j ≡ to_move s j - turns_of j turns)
  unfolding go_all
  go_all_lem s [] u w = (s, refl, u, λ j. omega arith)
  go_all_lem s (i ∷ turns) u w =
      let (s', went, u', one) = go_on_lem s i u w.0 in
      let (end, rest, kept, many) = go_all_lem s' turns u' w.1 in
      (end, rw (went, rest) refl, kept, λ j. ground (arith, one j, many j))
