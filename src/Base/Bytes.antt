-- ===== src/Base/Bytes.antt =====
-- Memory that the drivers copy: `memcpy` with its bounds checked, and the algebra of overwriting.
use Prim.Native.Nat.{ℕ, zero, suc, ◌+◌, ◌-◌, ◌≤◌, ◌<◌, min}
use mathlib.Core.Path.{◌≡◌, refl, ap, sym}
use mathlib.Core.Logic.{◌⊎◌, inl, inr}
use mathlib.Core.Bool.{◌&&◌}
use mathlib.Core.Option.{Option, none, some}
use mathlib.Core.List.{List, [], ◌∷◌, ◌++◌}
use native.Mathlib.Omega.{arith}
use l3_dd_trg.Base.Tests.{leb, if◌then◌else◌, le→leb, leb→le, Bool-cases}
use l3_dd_trg.Base.Lists.{length, get_or, take, drop, take_all, drop_all, drop-drop, length-drop}

-- The bytes `b` laid over `d` from `p` on; what passes the end of `d` is lost.
abbrev pub overwrite : List ℕ → ℕ → List ℕ → List ℕ
overwrite [] p b = []
overwrite (x ∷ d) zero [] = x ∷ d
overwrite (x ∷ d) zero (y ∷ b) = y ∷ overwrite d zero b
overwrite (x ∷ d) (suc p) b = x ∷ overwrite d p b

-- `memcpy(dst + i, src + j, n)`; `none` is an access outside of `dst` or `src`.
unfoldable pub memcpy : List ℕ → ℕ → List ℕ → ℕ → ℕ → Option (List ℕ)
memcpy dst i src j n =
    if leb (i + n) (length dst) && leb (j + n) (length src)
    then some (overwrite dst i (take n (drop j src)))
    else none

pub memcpy-in-bounds :
    (dst : List ℕ) (i : ℕ) (src : List ℕ) (j n : ℕ)
    → i + n ≤ length dst
    → j + n ≤ length src
    → memcpy dst i src j n ≡ some (overwrite dst i (take n (drop j src)))
unfolding memcpy
memcpy-in-bounds dst i src j n h k = rw (le→leb _ _ h, le→leb _ _ k)

pub length-overwrite : (d : List ℕ) (p : ℕ) (b : List ℕ) → length (overwrite d p b) ≡ length d
length-overwrite [] p b = refl
length-overwrite (x ∷ d) zero [] = refl
length-overwrite (x ∷ d) zero (y ∷ b) = ap suc (length-overwrite d zero b)
length-overwrite (x ∷ d) (suc p) b = ap suc (length-overwrite d p b)

pub overwrite-nil : (d : List ℕ) (p : ℕ) → overwrite d p [] ≡ d
overwrite-nil [] p = refl
overwrite-nil (x ∷ d) zero = refl
overwrite-nil (x ∷ d) (suc p) = ap (λ r. x ∷ r) (overwrite-nil d p)

-- Two writes, the second just behind what the first has laid down, are one.
pub overwrite-append :
    (d : List ℕ) (p : ℕ) (a : List ℕ) (q : ℕ) (b : List ℕ)
    → p ≤ length d
    → q ≡ p + min (length a) (length d - p)
    → overwrite (overwrite d p a) q b ≡ overwrite d p (a ++ b)
overwrite-append [] p a q b h e = refl
overwrite-append (x ∷ d) zero [] zero b h e = refl
overwrite-append (x ∷ d) zero [] (suc q) b h e = absurd (omega arith)
overwrite-append (x ∷ d) zero (y ∷ a) zero b h e = absurd (omega arith)
overwrite-append (x ∷ d) zero (y ∷ a) (suc q) b h e =
    ap (λ r. y ∷ r) (overwrite-append d zero a q b (omega arith) (omega arith))
overwrite-append (x ∷ d) (suc p) a zero b h e = absurd (omega arith)
overwrite-append (x ∷ d) (suc p) a (suc q) b h e =
    ap (λ r. x ∷ r) (overwrite-append d p a q b (omega arith) (omega arith))

-- Bytes past the end of the destination do not matter.
overwrite-take :
    (d : List ℕ) (p n : ℕ) (b : List ℕ)
    → length d ≤ p + n
    → overwrite d p (take n b) ≡ overwrite d p b
overwrite-take [] p n b h = refl
overwrite-take (x ∷ d) zero zero b h = absurd (omega arith)
overwrite-take (x ∷ d) zero (suc n) [] h = refl
overwrite-take (x ∷ d) zero (suc n) (y ∷ b) h =
    ap (λ r. y ∷ r) (overwrite-take d zero n b (omega arith))
overwrite-take (x ∷ d) (suc p) n b h = ap (λ r. x ∷ r) (overwrite-take d p n b (omega arith))

-- A copy that is cut at the end of the destination is the whole copy.
pub overwrite-take-min :
    (d : List ℕ) (p n : ℕ) (b : List ℕ)
    → n ≡ min (length b) (length d - p)
    → overwrite d p (take n b) ≡ overwrite d p b
overwrite-take-min d p n b e = elim (Bool-cases (leb (length d) (p + n))) [
  | inl whole ↦ overwrite-take d p n b (leb→le _ _ whole)
  | inr short ↦ ap (overwrite d p) (take_all n b (ground arith))
]

overwrite_past : (d : List ℕ) (p : ℕ) (b : List ℕ) → length d ≤ p → overwrite d p b ≡ d
overwrite_past [] p b h = refl
overwrite_past (x ∷ d) zero b h = absurd (omega arith)
overwrite_past (x ∷ d) (suc p) b h = ap (λ r. x ∷ r) (overwrite_past d p b (omega arith))

pub drop-overwrite :
    (d : List ℕ) (p : ℕ) (b : List ℕ) → drop p (overwrite d p b) ≡ overwrite (drop p d) zero b
drop-overwrite [] zero b = refl
drop-overwrite [] (suc p) b = refl
drop-overwrite (x ∷ d) zero b = refl
drop-overwrite (x ∷ d) (suc p) b = drop-overwrite d p b

-- What was laid over `d` reads back from its start.
pub overwrite_back :
    (e d b : List ℕ)
    → length e ≡ length b
    → length b ≤ length d
    → overwrite e zero (overwrite d zero b) ≡ b
overwrite_back [] d [] h k = refl
overwrite_back [] d (y ∷ b) h k = absurd (omega arith)
overwrite_back (x ∷ e) d [] h k = absurd (omega arith)
overwrite_back (x ∷ e) [] (y ∷ b) h k = absurd (omega arith)
overwrite_back (x ∷ e) (z ∷ d) (y ∷ b) h k =
    ap (λ r. y ∷ r) (overwrite_back e d b (omega arith) (omega arith))

overwrite-of-append :
    (d e b : List ℕ)
    → overwrite (d ++ e) zero b ≡ overwrite d zero b ++ overwrite e zero (drop (length d) b)
overwrite-of-append [] e b = refl
overwrite-of-append (x ∷ d) [] [] = refl
overwrite-of-append (x ∷ d) (z ∷ e) [] = refl
overwrite-of-append (x ∷ d) e (y ∷ b) = ap (λ r. y ∷ r) (overwrite-of-append d e b)

-- A write leaves every byte outside of its range.
pub get_or-overwrite_outside :
    (d : List ℕ) (p : ℕ) (b : List ℕ) (q z : ℕ)
    → (q < p) ⊎ (p + length b ≤ q)
    → get_or (overwrite d p b) q z ≡ get_or d q z
get_or-overwrite_outside [] p b q z h = refl
get_or-overwrite_outside (x ∷ d) zero [] q z h = refl
get_or-overwrite_outside (x ∷ d) zero (y ∷ b) zero z h = absurd (omega arith)
get_or-overwrite_outside (x ∷ d) zero (y ∷ b) (suc q) z h =
    get_or-overwrite_outside d zero b q z (omega arith)
get_or-overwrite_outside (x ∷ d) (suc p) b zero z h = refl
get_or-overwrite_outside (x ∷ d) (suc p) b (suc q) z h =
    get_or-overwrite_outside d p b q z (omega arith)

-- The buffers of a scatter list, one after another.
abbrev pub gather : List (List ℕ) → List ℕ
gather [] = []
gather (b ∷ bs) = b ++ gather bs

-- `b` dealt out over the buffers of a scatter list.
abbrev pub scatter : List ℕ → List (List ℕ) → List (List ℕ)
scatter b [] = []
scatter b (s ∷ ss) = overwrite s 0 b ∷ scatter (drop (length s) b) ss

pub gather-scatter :
    (b : List ℕ) (ss : List (List ℕ)) → gather (scatter b ss) ≡ overwrite (gather ss) zero b
gather-scatter b [] = refl
gather-scatter b (s ∷ ss) =
    rw (gather-scatter (drop (length s) b) ss, overwrite-of-append s (gather ss) b)

-- A buffer filled from a source at `p` takes what the source has there.
pub overwrite-take-drop :
    (s d : List ℕ) (p n : ℕ)
    → n ≡ min (length s) (length d - p)
    → overwrite s 0 (take n (drop p d)) ≡ overwrite s 0 (drop p d)
overwrite-take-drop s d p n e = elim (Bool-cases (leb (length s) n)) [
  | inl whole ↦ overwrite-take s 0 n (drop p d) (ground arith)
  | inr short ↦ ap (overwrite s 0) (take_all n (drop p d) (ground (arith, length-drop p d)))
]

-- After a copy of `n` bytes the source continues where the copy ended.
pub drop-after-copy :
    (s d : List ℕ) (p n : ℕ)
    → n ≡ min (length s) (length d - p)
    → drop (p + n) d ≡ drop (length s) (drop p d)
drop-after-copy s d p n e = elim (Bool-cases (leb (length s) (length d - p))) [
  | inl whole ↦ let same : length s ≡ n = ground arith in rw (same, drop-drop n p d)
  | inr short ↦
      rw (drop_all (p + n) d (ground arith), drop-drop (length s) p d)
        (sym (drop_all (p + length s) d (ground arith)))
]

pub take-overwrite : (d b : List ℕ) → length b ≤ length d → take (length b) (overwrite d zero b) ≡ b
take-overwrite d [] h = refl
take-overwrite [] (y ∷ b) h = absurd (omega arith)
take-overwrite (x ∷ d) (y ∷ b) h = ap (λ r. y ∷ r) (take-overwrite d b (omega arith))

-- A buffer that is filled whole.
pub overwrite-take_of_le :
    (e b : List ℕ) → length e ≤ length b → overwrite e 0 b ≡ take (length e) b
overwrite-take_of_le [] b h = refl
overwrite-take_of_le (x ∷ e) [] h = absurd (omega arith)
overwrite-take_of_le (x ∷ e) (y ∷ b) h = ap (λ r. y ∷ r) (overwrite-take_of_le e b (omega arith))
