-- ===== src/Convenient/Tests.antt =====
-- The macros' theorems at concrete places and times.
use l3_dd_trg.Base.{◌≡◌, refl, true, false, [], ◌∷◌}
use l3_dd_trg.Base.Decimal.{print_nat}
use l3_dd_trg.Convenient.{Context, print_ctx}

-- a softirq on the idle task, with a preempt count of 0x101
abbrev softirq : Context
softirq = record {
  in_task = false;
  in_hardirq = false;
  in_serving_softirq = true;
  irqs_disabled = false;
  need_resched = true;
  has_mm = false;
  preempt_count = 257;
  cpu = 1;
  pid = 0;
  comm = 115 ∷ 119 ∷ [];
  func = 102 ∷ [];
}

-- "001) [sw]:0   |  .Ns1   /* f() */"
softirq_line :
    print_ctx softirq
    ≡ 48 ∷ 48 ∷ 49 ∷ 41 ∷ 32 ∷ 91 ∷ 115 ∷ 119 ∷ 93 ∷ 58 ∷ 48 ∷ 32 ∷ 32 ∷ 32 ∷ 124 ∷ 32 ∷ 32 ∷ 46
      ∷ 78 ∷ 115 ∷ 49 ∷ 32 ∷ 32 ∷ 32 ∷ 47 ∷ 42 ∷ 32 ∷ 102 ∷ 40 ∷ 41 ∷ 32 ∷ 42 ∷ 47 ∷ 10 ∷ []
unfolding print_ctx print_nat
softirq_line = refl
