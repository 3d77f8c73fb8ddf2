-- ===== src/Base/Ledger.antt =====
-- What a driver's setup and teardown paths do to the kernel's resources, as a list of events, and
-- the ledger that replays such a list.
use Prim.Native.Nat.{ℕ}
use mathlib.Core.Path.{◌≡◌, refl}
use mathlib.Core.Option.{Option, none, some}
use mathlib.Core.List.{List, [], ◌∷◌, ◌++◌}
use l3_dd_trg.Base.Tests.{◌==◌, if◌then◌else◌, ◌>>=◌}
use l3_dd_trg.Base.Int.{ℤ, pos, negsuc}

-- What a kernel function that returns an `int` status answers: 0, or a negative error number;
-- `failed n` is -(n + 1).
pub data Answer : Type 0 where
  succeeded : Answer
  failed : ℕ → Answer

abbrev pub code : Answer → ℤ
code succeeded = pos 0
code (failed n) = negsuc n

-- A type of resources; `tag` tells them apart.
pub record Resource (R : Type 0) : Type 0 where
  pub tag : R → ℕ
  pub tag_injective : (a b : R) → tag a ≡ tag b → a ≡ b

pub data Event (R : Type 0) : Type 0 where
  acquire : R → Event R
  release : R → Event R

-- The value that a C function returns, and what it acquired and released on the way.
pub record Outcome (R : Type 0) : Type 0 where
  pub ret : ℤ
  pub events : List (Event R)

module _ {R : Type 0} where
  abbrev pub done : ℤ → List (Event R) → Outcome R
  done r es = record { ret = r; events = es }

  infixr 6 ◌▸◌
  -- an event, and then the rest of the function
  abbrev pub ◌▸◌ : Event R → Outcome R → Outcome R
  e ▸ o = done o.ret (e ∷ o.events)

module _ {R : Type 0} ⦃k : Resource R⦄ where
  -- the resources left, if `r` was held once
  abbrev pub remove : R → List R → Option (List R)
  remove r [] = none
  remove r (h ∷ hs) =
      if k.tag h == k.tag r
      then some hs
      else (elim (remove r hs) [ none ↦ none | some t ↦ some (h ∷ t) ])

  -- What is held after the events; `none` if something is released that is not held.
  abbrev pub replay : List (Event R) → List R → Option (List R)
  replay [] held = some held
  replay (acquire r ∷ es) held = replay es (r ∷ held)
  replay (release r ∷ es) held = elim (remove r held) [ none ↦ none | some rest ↦ replay es rest ]

  pub replay-append :
      (es fs : List (Event R)) (held : List R)
      → replay (es ++ fs) held ≡ (replay es held >>= replay fs)
  replay-append [] fs held = refl
  replay-append (acquire r ∷ es) fs held = replay-append es fs (r ∷ held)
  replay-append (release r ∷ es) fs held = go (remove r held) (λ rest. replay-append es fs rest)
    where
      go :
          (o : Option (List R))
          → ((rest : List R) → replay (es ++ fs) rest ≡ (replay es rest >>= replay fs))
          → elim o as (λ _. Option (List R)) [ none ↦ none | some rest ↦ replay (es ++ fs) rest ]
            ≡ (elim o as (λ _. Option (List R)) [ none ↦ none | some rest ↦ replay es rest ]
                >>= replay fs)
      go none h = refl
      go (some rest) h = h rest
