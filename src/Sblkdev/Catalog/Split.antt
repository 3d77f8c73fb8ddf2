-- ===== src/Sblkdev/Catalog/Split.antt =====
-- The tokens of blockdrv/sblkdev/main.c: nothing of the text is lost or changed.
use l3_dd_trg.Base.{
  ap, ◌∙◌, ne→not-==, ==_refl, ℕ, ◌≡◌, ◌≢◌, refl, List, [], ◌∷◌, ◌++◌, ◌==◌, Bool-cases, inl, inr,
  arith,
}
use l3_dd_trg.Sblkdev.Catalog.{cons_first, split}

-- The pieces with `sep` between them.
abbrev pub join : ℕ → List (List ℕ) → List ℕ
join sep [] = []
join sep (p ∷ []) = p
join sep (p ∷ q ∷ ps) = p ++ sep ∷ join sep (q ∷ ps)

abbrev pub Free : ℕ → List ℕ → Type 0
Free sep [] = Unit
Free sep (c ∷ s) = (c ≢ sep) × Free sep s

abbrev pub AllFree : ℕ → List (List ℕ) → Type 0
AllFree sep [] = Unit
AllFree sep (p ∷ ps) = Free sep p × AllFree sep ps

join-cons_first : (sep c : ℕ) (ps : List (List ℕ)) → join sep (cons_first c ps) ≡ c ∷ join sep ps
join-cons_first sep c [] = refl
join-cons_first sep c (p ∷ []) = refl
join-cons_first sep c (p ∷ q ∷ ps) = refl

cons_first-AllFree :
    (sep c : ℕ) (ps : List (List ℕ)) → c ≢ sep → AllFree sep ps → AllFree sep (cons_first c ps)
cons_first-AllFree sep c [] h f = ((h, tt), tt)
cons_first-AllFree sep c (p ∷ ps) h f = ((h, f.0), f.1)

cons_first-nonempty : (c : ℕ) (ps : List (List ℕ)) → cons_first c ps ≢ []
cons_first-nonempty c [] = λ e. cc
cons_first-nonempty c (p ∷ ps) = λ e. cc

pub split-nonempty : (sep : ℕ) (s : List ℕ) → split sep s ≢ []
unfolding split
split-nonempty sep [] = λ e. cc
split-nonempty sep (c ∷ s) = ground (arith, cons_first-nonempty c (split sep s))

join_cut : (sep : ℕ) (ps : List (List ℕ)) → ps ≢ [] → join sep ([] ∷ ps) ≡ sep ∷ join sep ps
join_cut sep [] h = absurd (h refl)
join_cut sep (p ∷ ps) h = refl

-- Joined again the pieces are the text, and no piece holds the separator.
join-split : (sep : ℕ) (s : List ℕ) → (join sep (split sep s) ≡ s) × AllFree sep (split sep s)
unfolding split
join-split sep [] = (refl, (tt, tt))
join-split sep (c ∷ s) =
    let ih = join-split sep s in
    elim (Bool-cases (c == sep)) [
      | inl cut ↦
          let same : c ≡ sep = ground arith in
          rw cut (rw (join_cut sep (split sep s) (split-nonempty sep s), ih.0, same), (tt, ih.1))
      | inr keep ↦ rw keep (
        rw (join-cons_first sep c (split sep s), ih.0),
        cons_first-AllFree sep c (split sep s) (ground arith) ih.1,
      )
    ]

pub split-Free : (sep : ℕ) (p : List ℕ) → Free sep p → split sep p ≡ p ∷ []
unfolding split
split-Free sep [] f = refl
split-Free sep (c ∷ p) f = rw (ne→not-== c sep f.0, split-Free sep p f.1) refl

pub split-append :
    (sep : ℕ) (p s : List ℕ) → Free sep p → split sep (p ++ sep ∷ s) ≡ p ∷ split sep s
unfolding split
split-append sep [] s f = rw (==_refl sep) refl
split-append sep (c ∷ p) s f = rw (ne→not-== c sep f.0, split-append sep p s f.1) refl

pub split-join :
    (sep : ℕ) (p : List ℕ) (ps : List (List ℕ))
    → AllFree sep (p ∷ ps)
    → split sep (join sep (p ∷ ps)) ≡ p ∷ ps
split-join sep p [] f = split-Free sep p f.0
split-join sep p (q ∷ ps) f =
    split-append sep p (join sep (q ∷ ps)) f.0 ∙ ap (λ r. p ∷ r) (split-join sep q ps f.1)

pub Free-append : (sep : ℕ) (p s : List ℕ) → Free sep p → Free sep s → Free sep (p ++ s)
Free-append sep [] s f g = g
Free-append sep (c ∷ p) s f g = (f.0, Free-append sep p s f.1 g)
