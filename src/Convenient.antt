-- ===== src/Convenient.antt =====
-- convenient.h, the macros that the drivers share: the context line of PRINT_CTX, the time line of
-- SHOW_DELTA; the children have the other macros, and the older version of PRINT_CTX that some drivers
-- keep beside them.
pub mod Delta
pub mod Line
pub mod Older
pub mod Sizes
pub mod Delays
mod Tests
use l3_dd_trg.Base.{
  ℕ, zero, suc, ◌+◌, ◌-◌, ◌*◌, ◌/◌, ◌%◌, ◌^◌, Bool, true, false, List, [], ◌∷◌, ◌++◌, length, ltb,
  leb, ◌==◌, ◌&&◌, not, if◌then◌else◌,
}
use l3_dd_trg.Base.Int.{ℤ, pos, negsuc}
use l3_dd_trg.Base.Decimal.{print_nat, print_int}

-- What the kernel says of the place where PRINT_CTX stands. The lists are bytes.
pub record Context : Type 0 where
  pub in_task : Bool
  pub in_hardirq : Bool
  pub in_serving_softirq : Bool
  pub irqs_disabled : Bool
  pub need_resched : Bool
  pub has_mm : Bool
  pub preempt_count : ℕ
  pub cpu : ℕ
  pub pid : ℕ
  pub comm : List ℕ
  pub func : List ℕ

-- `intr`: H for a hardware interrupt inside a softirq, h for a hardware interrupt, s for a softirq.
abbrev pub intr : Context → ℕ
intr c =
    if c.in_task
    then b'.'
    else if c.in_hardirq && c.in_serving_softirq
    then b'H'
    else if c.in_hardirq
    then b'h'
    else if c.in_serving_softirq
    then b's'
    else b'.'

-- `(preempt_count() && 0xff)`
abbrev pub depth : Context → ℕ
depth c = if c.preempt_count == 0 then 0 else 1

-- as many zeros
abbrev zeros : ℕ → List ℕ
zeros zero = []
zeros (suc n) = b'0' ∷ zeros n

-- `%03d`
abbrev print_three : ℕ → List ℕ
print_three n = let text = print_nat n in zeros (3 - length text) ++ text

-- The four letters between the bars, from the interrupts to the depth.
unfoldable pub four : Context → List ℕ
four c =
    (if c.irqs_disabled then b'd' else b'.')
    ∷ (if c.need_resched then b'N' else b'.')
    ∷ intr c
    ∷ print_nat (depth c)

-- The line "%03d) %c%s%c:%d   |  %c%c%c%u   /* %s() */\n", with these four letters.
abbrev pub line_of : Context → List ℕ → List ℕ
line_of c letters =
    print_three c.cpu
    ++ b')'
      ∷ b' '
      ∷ (if c.has_mm then b' ' else b'[')
      ∷ (c.comm
          ++ (if c.has_mm then b' ' else b']')
            ∷ b':'
            ∷ (print_nat c.pid
                ++ b' '
                  ∷ b' '
                  ∷ b' '
                  ∷ b'|'
                  ∷ b' '
                  ∷ b' '
                  ∷ (letters
                      ++ b' '
                        ∷ b' '
                        ∷ b' '
                        ∷ b'/'
                        ∷ b'*'
                        ∷ b' '
                        ∷ (c.func ++ b'(' ∷ b')' ∷ b' ' ∷ b'*' ∷ b'/' ∷ 10 ∷ []))))

-- `PRINT_CTX()`
unfoldable pub print_ctx : Context → List ℕ
unfolding four
print_ctx c = line_of c (four c)
