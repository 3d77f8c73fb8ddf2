-- ===== src/Parrot/Table.antt =====
-- The table of message lengths of parrot_driver.c, a ring of 128 entries.
use l3_dd_trg.Base.{
  ℕ, ◌+◌, ◌%◌, ◌<◌, ◌≡◌, ◌≢◌, ◌∙◌, List, [], ◌∷◌, ◌++◌, length, get_or, set, get_or-set_self,
  get_or-set_ne, arith,
}

-- From index `i` on, going round at 128, the table has the lengths of the messages.
abbrev pub Lengths : List ℕ → ℕ → List (List ℕ) → Type 0
Lengths table i [] = Unit
Lengths table i (msg ∷ rest) = (get_or table i 0 ≡ length msg) × Lengths table ((i + 1) % 128) rest

-- A write just behind the messages adds one.
pub Lengths-snoc :
    (table : List ℕ) (i j : ℕ) (msgs : List (List ℕ)) (new : List ℕ)
    → length table ≡ 128
    → i < 128
    → length msgs < 128
    → j ≡ (i + length msgs) % 128
    → Lengths table i msgs
    → Lengths (set table j (length new)) i (msgs ++ new ∷ [])
Lengths-snoc table i j [] new ht hi hn hj h =
    let here : j ≡ i = omega arith in
    rw here (get_or-set_self table i (length new) 0 (omega arith), tt)
Lengths-snoc table i j (msg ∷ rest) new ht hi hn hj (h, hs) =
    let other : j ≢ i = omega arith in
    (
      get_or-set_ne table j i (length new) 0 other ∙ h,
      Lengths-snoc table ((i + 1) % 128) j rest new ht (omega arith) (omega arith) (omega arith) hs,
    )

-- Where the number written is the length of the new message.
pub Lengths-snoc_of :
    (table : List ℕ) (i j : ℕ) (msgs : List (List ℕ)) (new : List ℕ) (c : ℕ)
    → length table ≡ 128
    → i < 128
    → length msgs < 128
    → j ≡ (i + length msgs) % 128
    → Lengths table i msgs
    → c ≡ length new
    → Lengths (set table j c) i (msgs ++ new ∷ [])
Lengths-snoc_of table i j msgs new c ht hi hn hj h e =
    rw e (Lengths-snoc table i j msgs new ht hi hn hj h)
