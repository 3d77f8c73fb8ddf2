-- ===== src/Veth/Parallel/Fair.antt =====
-- Several senders in `vnet_start_xmit` of veth_netdrv.c at once, on processors that each make progress:
-- all of them leave.
use mathlib.Core.Path.{subst}
use l3_dd_trg.Base.{
  ℕ, zero, suc, ◌*◌, ◌^◌, ◌≤◌, ◌<◌, ◌≡◌, ◌⊎◌, inl, inr, ◌∙◌, refl, ap, sym, Option, Option-cases,
  none, some, List, [], ◌∷◌, ◌++◌, length, get_or, set, map, arith,
}
use l3_dd_trg.Veth.{Counters, xmit_all}
use l3_dd_trg.Veth.Parallel.{
  Stage, waiting, entered, loaded_count, stored_count, loaded_bytes, stored_bytes, left, Sender,
  System, vnet_xmit_step, nobody, sender_at, step, steps,
}
use l3_dd_trg.Veth.Parallel.Locked.{IsInside, total-set, IsLocked}
use l3_dd_trg.Veth.Parallel.Progress.{
  AllLeft, TurnsWithin, rank, left_to_do, progress, step-same, steps-kept,
}
use l3_dd_trg.Veth.Parallel.Together.{sender_of, at_the_lock, ours, start-IsLocked, together}

-- The i-th sender has a turn.
abbrev pub HasTurn : ℕ → List ℕ → Type 0
HasTurn i [] = ⊥
HasTurn i (j ∷ turns) = (j ≡ i) ⊎ HasTurn i turns

-- In each of these rounds every one of `n` senders has a turn, and nobody else.
abbrev pub AllRounds : ℕ → List (List ℕ) → Type 0
AllRounds n [] = Unit
AllRounds n (turns ∷ rounds) =
    TurnsWithin n turns × ((i : ℕ) → i < n → HasTurn i turns) × AllRounds n rounds

abbrev pub flatten : List (List ℕ) → List ℕ
flatten [] = []
flatten (turns ∷ rounds) = turns ++ flatten rounds

-- A turn brings a sender closer to its end, or it changes nothing.
moves_or_waits :
    (c : Counters) (h : Option ℕ) (i len : ℕ) (g : Stage)
    → (rank (vnet_xmit_step c h i len g).2 < rank g) ⊎ (vnet_xmit_step c h i len g ≡ (c, h, g))
unfolding vnet_xmit_step
moves_or_waits c none i len waiting = inl (omega arith)
moves_or_waits c (some j) i len waiting = inr refl
moves_or_waits c h i len entered = inl (omega arith)
moves_or_waits c h i len (loaded_count n) = inl (omega arith)
moves_or_waits c h i len stored_count = inl (omega arith)
moves_or_waits c h i len (loaded_bytes n) = inl (omega arith)
moves_or_waits c h i len stored_bytes = inl (omega arith)
moves_or_waits c h i len left = inr refl

set-get_or : (ss : List Sender) (i : ℕ) → set ss i (get_or ss i nobody) ≡ ss
set-get_or [] i = refl
set-get_or (s ∷ ss) zero = refl
set-get_or (s ∷ ss) (suc i) = ap (λ r. s ∷ r) (set-get_or ss i)

step-drops-or-same :
    (s : System) (i : ℕ)
    → i < length s.senders
    → (left_to_do (step s i).senders < left_to_do s.senders) ⊎ (step s i ≡ s)
unfolding step
step-drops-or-same s i l =
    let me = sender_at s i in
    let g = (vnet_xmit_step s.counters s.holder i me.len me.stage).2 in
    elim (moves_or_waits s.counters s.holder i me.len me.stage) [
      | inl less ↦ inl (
          omega
            (arith, total-set (λ t. rank t.stage) s.senders i (record me { stage = g }) l, less))
      | inr same ↦ inr (
          ap
            (λ (c, h, g).
              let s' : System = record {
                counters = c;
                holder = h;
                senders = set s.senders i (record me { stage = g });
              } in
              s')
            same
          ∙ ap (λ ss. record s { senders = ss }) (set-get_or s.senders i))
    ]

step-le :
    (s : System) (i : ℕ)
    → i < length s.senders
    → left_to_do (step s i).senders ≤ left_to_do s.senders
step-le s i l = elim (step-drops-or-same s i l) [
  | inl less ↦ omega (arith, less)
  | inr same ↦ rw same (omega arith)
]

steps-le :
    (turns : List ℕ) (s : System)
    → TurnsWithin (length s.senders) turns
    → left_to_do (steps s turns).senders ≤ left_to_do s.senders
unfolding steps
steps-le [] s w = omega arith
steps-le (i ∷ turns) s w =
    let same = step-same s i w.0 in
    let rest = steps-le turns (step s i) (rw (same.0) (w.1)) in omega (arith, step-le s i w.0, rest)

-- A sender that could move at the start of a round in which it has a turn: by the end of the round
-- somebody has moved.
round_drops :
    (i : ℕ) (turns : List ℕ) (s : System)
    → left_to_do (step s i).senders < left_to_do s.senders
    → HasTurn i turns
    → TurnsWithin (length s.senders) turns
    → left_to_do (steps s turns).senders < left_to_do s.senders
unfolding steps
round_drops i [] s less t w = absurd t
round_drops i (j ∷ turns) s less t w = elim (step-drops-or-same s j w.0) [
  | inl drop ↦
      let same = step-same s j w.0 in
      let rest = steps-le turns (step s j) (rw (same.0) (w.1)) in omega (arith, drop, rest)
  | inr same ↦ elim t [
    | inl e ↦ absurd (
        omega (
          arith,
          less,
          ap (λ k. left_to_do (step s k).senders) e,
          ap (λ (q : System). left_to_do q.senders) same,
        ))
    | inr later ↦
        let rest = round_drops i turns s less later w.1 in
        subst (λ q. left_to_do (steps q turns).senders < left_to_do s.senders) (sym same) rest
  ]
]

AllLeft-zero : (ss : List Sender) → AllLeft ss → left_to_do ss ≡ 0
AllLeft-zero [] h = refl
AllLeft-zero (s ∷ ss) h = rw (h.0) (omega (arith, AllLeft-zero ss h.1))

steps-append : (a b : List ℕ) (s : System) → steps s (a ++ b) ≡ steps (steps s a) b
unfolding steps
steps-append [] b s = refl
steps-append (i ∷ a) b s = steps-append a b (step s i)

rounds-AllLeft :
    (start : Counters) (rounds : List (List ℕ)) (s : System)
    → IsLocked start s
    → AllRounds (length s.senders) rounds
    → left_to_do s.senders ≤ length rounds
    → AllLeft (steps s (flatten rounds)).senders
unfolding steps
rounds-AllLeft start [] s h r l = elim (progress start s h) [
  | inl all ↦ all
  | inr (i, w, less) ↦ absurd (omega (arith, less, l))
]
rounds-AllLeft start (turns ∷ rounds) s h r l =
    let (locked, many, long) = steps-kept start turns s h r.0 in
    let fewer : left_to_do (steps s turns).senders ≤ length rounds = elim (progress start s h) [
      | inl all ↦ omega (arith, AllLeft-zero s.senders all, steps-le turns s r.0)
      | inr (i, w, less) ↦ omega (arith, round_drops i turns s less (r.1 i w) r.0, l)
    ] in
    rw (steps-append turns (flatten rounds) s)
      (rounds-AllLeft start rounds (steps s turns) locked (rw many (r.2)) fewer)

start-left_to_do : (lens : List ℕ) → left_to_do (map sender_of lens) ≡ 6 * length lens
start-left_to_do [] = refl
start-left_to_do (l ∷ lens) = omega (arith, start-left_to_do lens)

start-length : (lens : List ℕ) → length (map sender_of lens) ≡ length lens
start-length [] = refl
start-length (l ∷ lens) = ap suc (start-length lens)

rounds-TurnsWithin :
    (n : ℕ) (rounds : List (List ℕ)) → AllRounds n rounds → TurnsWithin n (flatten rounds)
rounds-TurnsWithin n [] r = tt
rounds-TurnsWithin n (turns ∷ rounds) r = both turns r.0 (rounds-TurnsWithin n rounds r.2)
  where
    both :
        (a : List ℕ)
        → TurnsWithin n a
        → TurnsWithin n (flatten rounds)
        → TurnsWithin n (a ++ flatten rounds)
    both [] h k = k
    both (i ∷ a) h k = (h.0, both a h.1 k)

left-outside : (ss : List Sender) (j : ℕ) → AllLeft ss → ¬ (IsInside (get_or ss j nobody).stage)
left-outside [] j h q = q
left-outside (s ∷ ss) zero h q = rw h.0 at q
left-outside (s ∷ ss) (suc j) h q = left-outside ss j h.1 q

free_at_end :
    (start : Counters) (s : System) → IsLocked start s → AllLeft s.senders → s.holder ≡ none
free_at_end start s h all = elim (Option-cases s.holder) [
  | inl free ↦ free
  | inr (j, taken) ↦ absurd (left-outside s.senders j all (h.held j taken))
]

-- Senders with packets for the driver's port come to its lock at once, and go on in rounds: in a round
-- every sender has a turn or more, a load, a store or a look at the lock, in any order. After six rounds
-- for each sender all have left, the lock is free, and the numbers of packets and of bytes are those of
-- the same packets sent one after another.
pub fair_together :
    (ntohs : ℕ → ℕ) (c : Counters) (lens : List ℕ) (rounds : List (List ℕ))
    → c.tx_pkt_count < 2 ^ 32
    → c.tx_bytes < 2 ^ 32
    → AllRounds (length lens) rounds
    → 6 * length lens ≤ length rounds
    → let s = steps (at_the_lock c lens) (flatten rounds) in
      let alone = xmit_all ntohs c (map (ours ntohs) lens) in
      AllLeft s.senders
      × (s.holder ≡ none)
      × (s.counters.tx_pkt_count ≡ alone.tx_pkt_count)
      × (s.counters.tx_bytes ≡ alone.tx_bytes)
fair_together ntohs c lens rounds p b r enough =
    let locked = start-IsLocked c lens p b in
    let here = start-length lens in
    let all =
      rounds-AllLeft c rounds (at_the_lock c lens) locked (rw here r)
        (omega (arith, start-left_to_do lens, enough)) in
    let within = rounds-TurnsWithin (length lens) rounds r in
    let (kept, many, long) =
      steps-kept c (flatten rounds) (at_the_lock c lens) locked (rw here within) in
    let same = (together ntohs c lens (flatten rounds) p b within).0 all in
    (all, free_at_end c (steps (at_the_lock c lens) (flatten rounds)) kept all, same.0, same.1)
