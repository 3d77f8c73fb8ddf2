-- ===== src/Sblkdev/Parallel/Apart.antt =====
-- Ranges of a list of bytes that do not meet: a write to one leaves what the other reads or writes.
use l3_dd_trg.Base.{
  ℕ, zero, suc, ◌+◌, ◌-◌, ◌≤◌, ◌≡◌, ◌∙◌, ◌⊎◌, refl, ap, sym, List, [], ◌∷◌, ◌++◌, length, take,
  drop, drop-drop, arith,
}
use l3_dd_trg.Base.Bytes.{overwrite, overwrite-nil}

-- Writes to ranges that do not meet can be swapped.
pub overwrite_comm :
    (d : List ℕ) (p : ℕ) (a : List ℕ) (q : ℕ) (b : List ℕ)
    → (p + length a ≤ q) ⊎ (q + length b ≤ p)
    → overwrite (overwrite d p a) q b ≡ overwrite (overwrite d q b) p a
overwrite_comm [] p a q b h = refl
overwrite_comm (x ∷ d) zero [] q b h = sym (overwrite-nil (overwrite (x ∷ d) q b) zero)
overwrite_comm (x ∷ d) zero (y ∷ a) zero [] h = refl
overwrite_comm (x ∷ d) zero (y ∷ a) zero (z ∷ b) h = absurd (omega arith)
overwrite_comm (x ∷ d) zero (y ∷ a) (suc q) b h =
    ap (λ r. y ∷ r) (overwrite_comm d zero a q b (omega arith))
overwrite_comm (x ∷ d) (suc p) a zero [] h = refl
overwrite_comm (x ∷ d) (suc p) a zero (z ∷ b) h =
    ap (λ r. z ∷ r) (overwrite_comm d p a zero b (omega arith))
overwrite_comm (x ∷ d) (suc p) a (suc q) b h =
    ap (λ r. x ∷ r) (overwrite_comm d p a q b (omega arith))

-- `n` bytes from `p` on.
abbrev pub slice : ℕ → ℕ → List ℕ → List ℕ
slice p n d = take n (drop p d)

pub slice-overwrite :
    (d : List ℕ) (p n q : ℕ) (b : List ℕ)
    → (p + n ≤ q) ⊎ (q + length b ≤ p)
    → slice p n (overwrite d q b) ≡ slice p n d
slice-overwrite [] p n q b h = refl
slice-overwrite (x ∷ d) p n zero [] h = refl
slice-overwrite (x ∷ d) zero zero q b h = refl
slice-overwrite (x ∷ d) zero (suc n) zero (y ∷ b) h = absurd (omega arith)
slice-overwrite (x ∷ d) zero (suc n) (suc q) b h =
    ap (λ r. x ∷ r) (slice-overwrite d zero n q b (omega arith))
slice-overwrite (x ∷ d) (suc p) n zero (y ∷ b) h = slice-overwrite d p n zero b (omega arith)
slice-overwrite (x ∷ d) (suc p) n (suc q) b h = slice-overwrite d p n q b (omega arith)

drop-take : (x : List ℕ) (k m n : ℕ) → k + m ≤ n → take m (drop k (take n x)) ≡ take m (drop k x)
drop-take [] k m zero h = refl
drop-take [] k m (suc n) h = refl
drop-take (y ∷ x) zero zero n h = refl
drop-take (y ∷ x) zero (suc m) zero h = absurd (omega arith)
drop-take (y ∷ x) zero (suc m) (suc n) h = ap (λ r. y ∷ r) (drop-take x zero m n (omega arith))
drop-take (y ∷ x) (suc k) m zero h = absurd (omega arith)
drop-take (y ∷ x) (suc k) m (suc n) h = drop-take x k m n (omega arith)

inner :
    (d : List ℕ) (p n q m : ℕ)
    → p ≤ q
    → q + m ≤ p + n
    → take m (drop (q - p) (slice p n d)) ≡ slice q m d
inner d p n q m k l =
    let e : p + (q - p) ≡ q = omega arith in
    drop-take (drop p d) (q - p) m n (omega arith)
    ∙ ap (take m) (drop-drop (q - p) p d)
    ∙ ap (λ i. slice i m d) e

-- Where two lists agree on a slice, they agree on the slices within.
pub slice-slice :
    (d e : List ℕ) (p n q m : ℕ)
    → slice p n d ≡ slice p n e
    → p ≤ q
    → q + m ≤ p + n
    → slice q m d ≡ slice q m e
slice-slice d e p n q m h k l =
    sym (inner d p n q m k l) ∙ ap (λ s. take m (drop (q - p) s)) h ∙ inner e p n q m k l

take-nil : (n : ℕ) → take {A = ℕ} n [] ≡ []
take-nil zero = refl
take-nil (suc n) = refl

take-add : (x : List ℕ) (n m : ℕ) → take n x ++ take m (drop n x) ≡ take (n + m) x
take-add x zero m = let e : zero + m ≡ m = omega arith in rw e refl
take-add [] (suc n) m = take-nil m ∙ sym (take-nil (suc n + m))
take-add (y ∷ x) (suc n) m =
    let e : suc n + m ≡ suc (n + m) = omega arith in rw e (ap (λ r. y ∷ r) (take-add x n m))

-- Two slices, the second just behind the first.
pub slice-append : (d : List ℕ) (p n m : ℕ) → slice p n d ++ slice (p + n) m d ≡ slice p (n + m) d
slice-append d p n m =
    ap (λ r. slice p n d ++ take m r) (sym (drop-drop n p d)) ∙ take-add (drop p d) n m
