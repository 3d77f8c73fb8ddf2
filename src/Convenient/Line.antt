-- ===== src/Convenient/Line.antt =====
-- What a reader learns from the context line of convenient.h.
use l3_dd_trg.Base.{
  ℕ, suc, ◌+◌, ◌≡◌, ◌↔◌, refl, ap, false, not, ◌&&◌, ◌==◌, get_or, arith, Bool-cases, inl, inr,
}
use l3_dd_trg.Base.Decimal.{print_nat}
use l3_dd_trg.Convenient.{Context, depth, four, print_ctx}

depth_digit : (c : Context) → get_or (print_nat (depth c)) 0 0 ≡ 48 + depth c
depth_digit c = elim (Bool-cases (c.preempt_count == 0)) [
  | inl free ↦ rw free (unfold print_nat in refl)
  | inr nested ↦ rw nested (unfold print_nat in refl)
]

-- Two places with the same four letters agree on whether interrupts are disabled, on whether the
-- task is to be rescheduled, on the kinds of interrupt that they are in, and on whether the preempt
-- count is 0.
four_injective :
    (c d : Context)
    → four c ≡ four d
    → (c.irqs_disabled ≡ d.irqs_disabled)
      × (c.need_resched ≡ d.need_resched)
      × ((not c.in_task && c.in_hardirq) ≡ (not d.in_task && d.in_hardirq))
      × ((not c.in_task && c.in_serving_softirq) ≡ (not d.in_task && d.in_serving_softirq))
      × ((c.preempt_count ≡ 0) ↔ (d.preempt_count ≡ 0))
unfolding four
four_injective c d e =
    let first = ap (λ t. get_or t 0 0) e in
    let second = ap (λ t. get_or t 1 0) e in
    let third = ap (λ t. get_or t 2 0) e in
    let fourth = ap (λ t. get_or t 3 0) e in
    (
      ground (arith, first),
      ground (arith, second),
      ground (arith, third),
      ground (arith, third),
      (
        ground (arith, fourth, depth_digit c, depth_digit d),
        ground (arith, fourth, depth_digit c, depth_digit d),
      ),
    )

-- The line does not tell one nonzero preempt count from another.
print_ctx-hides-depth :
    (c : Context) (m n : ℕ)
    → print_ctx (record c { preempt_count = suc m })
      ≡ print_ctx (record c { preempt_count = suc n })
unfolding print_ctx four
print_ctx-hides-depth c m n =
    let nested_m : (suc m == 0) ≡ false = ground arith in
    let nested_n : (suc n == 0) ≡ false = ground arith in rw (nested_m, nested_n) refl
