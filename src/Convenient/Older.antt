-- ===== src/Convenient/Older.antt =====
-- The PRINT_CTX of the older versions of convenient.h that some drivers keep beside them, against the
-- one of convenient.h.
use l3_dd_trg.Base.{◌≡◌, ap, ℕ, Bool, true, false, List, ◌∷◌, ◌&&◌, ◌||◌, not, arith, if◌then◌else◌}
use l3_dd_trg.Base.Decimal.{print_nat}
use l3_dd_trg.Convenient.{Context, intr, depth, four, line_of, print_ctx}

-- `in_softirq()`, which is also true where bottom halves are only disabled.
abbrev in_softirq : Context → Bool → Bool
in_softirq c bh_disabled = c.in_serving_softirq || bh_disabled

-- `intr`
abbrev older_intr : Context → Bool → ℕ
older_intr c bh_disabled =
    if c.in_task
    then b'.'
    else if c.in_hardirq && in_softirq c bh_disabled
    then b'H'
    else if c.in_hardirq
    then b'h'
    else if in_softirq c bh_disabled
    then b's'
    else b'.'

-- The line, with this letter for the place.
abbrev with_letter : Context → ℕ → List ℕ
with_letter c letter = line_of c (
    (if c.irqs_disabled then b'd' else b'.')
    ∷ (if c.need_resched then b'N' else b'.')
    ∷ letter
    ∷ print_nat (depth c))

unfoldable older_print_ctx : Context → Bool → List ℕ
older_print_ctx c bh_disabled = with_letter c (older_intr c bh_disabled)

-- In a place that is a task, a hardware interrupt or a softirq, the older line is the newer one, but
-- for a hardware interrupt that came while bottom halves were disabled and no softirq was running:
-- that is shown as one inside a softirq.
older_print_ctx-print_ctx :
    (c : Context) (bh_disabled : Bool)
    → (c.in_task || c.in_hardirq || c.in_serving_softirq) ≡ true
    → ((not c.in_task && c.in_hardirq && bh_disabled && not c.in_serving_softirq) ≡ false
        → older_print_ctx c bh_disabled ≡ print_ctx c)
      × ((not c.in_task && c.in_hardirq && bh_disabled && not c.in_serving_softirq) ≡ true
          → (older_intr c bh_disabled ≡ b'H') × (intr c ≡ b'h'))
unfolding older_print_ctx print_ctx four
older_print_ctx-print_ctx c bh_disabled h =
    (λ usual. ap (λ letter. with_letter c letter) (same usual), λ odd. ground arith)
  where
    same :
        (not c.in_task && c.in_hardirq && bh_disabled && not c.in_serving_softirq) ≡ false
        → older_intr c bh_disabled ≡ intr c
    same usual = ground arith
