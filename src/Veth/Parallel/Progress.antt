-- ===== src/Veth/Parallel/Progress.antt =====
-- Several senders at once: while not all have left, one of them can move.
use l3_dd_trg.Base.{
  ℕ, zero, suc, ◌<◌, ◌≡◌, ◌∙◌, ◌⊎◌, inl, inr, refl, ap, sym, Option, Option-cases, none, some, List,
  [], ◌∷◌, length, length-set, get_or, arith,
}
use l3_dd_trg.Veth.{Counters}
use l3_dd_trg.Veth.Parallel.{
  Stage, waiting, entered, loaded_count, stored_count, loaded_bytes, stored_bytes, left, Sender,
  System, vnet_xmit_step, nobody, sender_at, step, steps,
}
use l3_dd_trg.Veth.Parallel.Locked.{
  IsInside, counted, sent, total, total-set, none≢some, IsLocked, step-IsLocked,
}

abbrev pub AllLeft : List Sender → Type 0
AllLeft [] = Unit
AllLeft (s ∷ ss) = (s.stage ≡ left) × AllLeft ss

abbrev pub TurnsWithin : ℕ → List ℕ → Type 0
TurnsWithin n [] = Unit
TurnsWithin n (i ∷ turns) = (i < n) × TurnsWithin n turns

-- The steps that a sender still has to make.
abbrev pub rank : Stage → ℕ
rank waiting = 6
rank entered = 5
rank (loaded_count n) = 4
rank stored_count = 3
rank (loaded_bytes n) = 2
rank stored_bytes = 1
rank left = 0

abbrev pub left_to_do : List Sender → ℕ
left_to_do ss = total (λ s. rank s.stage) ss

drops :
    (c : Counters) (k : Option ℕ) (i len : ℕ) (g : Stage)
    → IsInside g ⊎ ((g ≡ waiting) × (k ≡ none))
    → rank (vnet_xmit_step c k i len g).2 < rank g
unfolding vnet_xmit_step
drops c none i len waiting p = omega arith
drops c (some j) i len waiting p = elim p [
  | inl q ↦ absurd q
  | inr (e, busy) ↦ absurd (none≢some (sym busy))
]
drops c k i len entered p = omega arith
drops c k i len (loaded_count n) p = omega arith
drops c k i len stored_count p = omega arith
drops c k i len (loaded_bytes n) p = omega arith
drops c k i len stored_bytes p = omega arith
drops c k i len left p = elim p [ inl q ↦ absurd q | inr (e, free) ↦ omega (arith, ap rank e) ]

inside-within : (ss : List Sender) (i : ℕ) → IsInside (get_or ss i nobody).stage → i < length ss
inside-within [] i p = absurd p
inside-within (s ∷ ss) zero p = omega arith
inside-within (s ∷ ss) (suc i) p = omega (arith, inside-within ss i p)

classify : (g : Stage) → (g ≡ left) ⊎ (IsInside g ⊎ (g ≡ waiting))
classify waiting = inr (inr refl)
classify left = inl refl
classify entered = inr (inl tt)
classify (loaded_count n) = inr (inl tt)
classify stored_count = inr (inl tt)
classify (loaded_bytes n) = inr (inl tt)
classify stored_bytes = inr (inl tt)

-- All have left, or there is one that has not: at the lock or behind it.
AllLeft-or :
    (ss : List Sender)
    → AllLeft ss
      ⊎ ((i : ℕ) × (i < length ss)
          × (IsInside (get_or ss i nobody).stage ⊎ ((get_or ss i nobody).stage ≡ waiting)))
AllLeft-or [] = inl tt
AllLeft-or (s ∷ ss) = elim (classify s.stage) [
  | inl gone ↦ elim (AllLeft-or ss) [
    | inl all ↦ inl (gone, all)
    | inr (i, within, here) ↦ inr (suc i, omega (arith, within), here)
  ]
  | inr here ↦ inr (zero, omega arith, here)
]

pub AllLeft-counted : (ss : List Sender) → AllLeft ss → total counted ss ≡ length ss
AllLeft-counted [] h = refl
AllLeft-counted (s ∷ ss) h = rw (h.0) (omega (arith, AllLeft-counted ss h.1))

pub AllLeft-sent : (ss : List Sender) → AllLeft ss → total sent ss ≡ total (λ s. s.len) ss
AllLeft-sent [] h = refl
AllLeft-sent (s ∷ ss) h = rw (h.0) (omega (arith, AllLeft-sent ss h.1))

-- A step moves no packet from one sender to another.
pub step-same :
    (s : System) (i : ℕ)
    → i < length s.senders
    → (length (step s i).senders ≡ length s.senders)
      × (total (λ t. t.len) (step s i).senders ≡ total (λ t. t.len) s.senders)
unfolding step
step-same s i h = (
  length-set s.senders i _,
  omega (
    arith,
    total-set (λ t. t.len) s.senders i
        (record (sender_at s i) {
          stage =
              (vnet_xmit_step s.counters s.holder i (sender_at s i).len (sender_at s i).stage).2;
        })
        h,
  ),
)

pub steps-kept :
    (start : Counters) (turns : List ℕ) (s : System)
    → IsLocked start s
    → TurnsWithin (length s.senders) turns
    → IsLocked start (steps s turns)
      × (length (steps s turns).senders ≡ length s.senders)
      × (total (λ t. t.len) (steps s turns).senders ≡ total (λ t. t.len) s.senders)
unfolding steps
steps-kept start [] s h w = (h, refl, refl)
steps-kept start (i ∷ turns) s h w =
    let same = step-same s i w.0 in
    let rest =
      steps-kept start turns (step s i) (step-IsLocked start s i w.0 h) (rw (same.0) (w.1)) in
    (rest.0, rest.1 ∙ same.0, rest.2 ∙ same.1)

-- A step behind the lock, or one to a lock that is free.
step-drops :
    (s : System) (i : ℕ)
    → i < length s.senders
    → IsInside (sender_at s i).stage ⊎ (((sender_at s i).stage ≡ waiting) × (s.holder ≡ none))
    → left_to_do (step s i).senders < left_to_do s.senders
unfolding step
step-drops s i w p =
    let me = sender_at s i in
    let g = (vnet_xmit_step s.counters s.holder i me.len me.stage).2 in
    omega (
      arith,
      total-set (λ t. rank t.stage) s.senders i (record me { stage = g }) w,
      drops s.counters s.holder i me.len me.stage p,
    )

-- The one that moves: the holder of the lock, or anyone at it if it is free.
pub progress :
    (start : Counters) (s : System)
    → IsLocked start s
    → AllLeft s.senders
      ⊎ ((i : ℕ) × (i < length s.senders) × (left_to_do (step s i).senders < left_to_do s.senders))
progress start s h = elim (AllLeft-or s.senders) [
  | inl all ↦ inl all
  | inr (i, w, inl inside) ↦ inr (i, w, step-drops s i w (inl inside))
  | inr (i, w, inr wait) ↦ elim (Option-cases s.holder) [
    | inl free ↦ inr (i, w, step-drops s i w (inr (wait, free)))
    | inr (j, taken) ↦
        let inside = h.held j taken in
        let within = inside-within s.senders j inside in
        inr (j, within, step-drops s j within (inl inside))
  ]
]
