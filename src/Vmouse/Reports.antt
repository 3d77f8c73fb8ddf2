-- ===== src/Vmouse/Reports.antt =====
-- `vms_store` of input_drv_virtual_mouse/input_drv_mouse.c, and the program coord_gen.c that writes
-- to it: the text of one and the reading of the other.
use l3_dd_trg.Base.{
  ℕ, ◌+◌, ◌%◌, ◌≡◌, ◌≤◌, refl, ap, ◌∙◌, Option, none, some, List, [], ◌∷◌, ◌++◌, length,
  length-append, ◌==◌, if◌then◌else◌, arith,
}
use l3_dd_trg.Base.Int.{ℤ, pos}
use l3_dd_trg.Base.Decimal.{
  print_int, print_nat, scan_int, scan_int-print_int, scan_int-space, narrow, negated,
  length-print_nat,
}

-- The calls to the input core.
pub data Report : Type 0 where
  rel_x rel_y : ℤ → Report
  sync : Report

second : ℤ × ℤ → ℤ → Option (ℤ × List ℕ) → ℤ × ℤ
second stack a none = (narrow a, stack.1)
second stack a (some (b, end)) = (narrow a, narrow b)

first : ℤ × ℤ → Option (ℤ × List ℕ) → ℤ × ℤ
unfolding second
first stack none = stack
first stack (some (a, rest)) = second stack a (scan_int rest)

-- `sscanf(buf, "%d%d", &x, &y)`; what is not read stays as the stack has it.
unfoldable pub scan_two : ℤ × ℤ → List ℕ → ℤ × ℤ
unfolding first
scan_two stack buf = first stack (scan_int buf)

-- The result and the reports, given what the stack holds.
unfoldable pub vms_store : ℤ × ℤ → List ℕ → ℤ × List Report
vms_store stack buf =
    let xy = scan_two stack buf in (pos (length buf), rel_x xy.0 ∷ rel_y xy.1 ∷ sync ∷ [])

-- A coordinate of coord_gen.c, from an answer of `random()`: odd ones are negated.
unfoldable pub coordinate : ℕ → ℤ
coordinate random = let x = random % 20 in if x % 2 == 0 then pos x else negated x

-- `sprintf(buffer, "%d %d %d", x, y, 0)`
unfoldable pub line : ℤ → ℤ → List ℕ
line x y = print_int x ++ 32 ∷ (print_int y ++ 32 ∷ print_int (pos 0))

-- One round of the loop of `main`: the text that is written to the driver.
unfoldable pub coord_gen : ℕ → ℕ → List ℕ
unfolding coordinate line
coord_gen random_x random_y = line (coordinate random_x) (coordinate random_y)

narrow-coordinate : (r : ℕ) → narrow (coordinate r) ≡ coordinate r
unfolding coordinate
narrow-coordinate r = ground arith

scan_two-line : (stack : ℤ × ℤ) (x y : ℤ) → scan_two stack (line x y) ≡ (narrow x, narrow y)
unfolding scan_two first second line
scan_two-line stack x y =
    ap (first stack) (scan_int-print_int x (32 ∷ (print_int y ++ 32 ∷ print_int (pos 0))) refl)
    ∙ ap (second stack x) (
        scan_int-space (print_int y ++ 32 ∷ print_int (pos 0))
        ∙ scan_int-print_int y (32 ∷ print_int (pos 0)) refl)

-- Whatever `random()` answers and whatever the stack holds, the driver reports the coordinates that
-- coord_gen.c made, and takes the whole text.
pub vms_store-coord_gen :
    (stack : ℤ × ℤ) (random_x random_y : ℕ)
    → vms_store stack (coord_gen random_x random_y) ≡ (
      pos (length (coord_gen random_x random_y)),
      rel_x (coordinate random_x) ∷ rel_y (coordinate random_y) ∷ sync ∷ [],
    )
unfolding vms_store coord_gen
vms_store-coord_gen stack random_x random_y = rw (
  scan_two-line stack (coordinate random_x) (coordinate random_y),
  narrow-coordinate random_x,
  narrow-coordinate random_y,
)

length-coordinate : (r : ℕ) → length (print_int (coordinate r)) ≤ 3
unfolding coordinate print_int
length-coordinate r = ground (arith, length-print_nat 1 (r % 20))

zero_text : length (print_int (pos 0)) ≡ 1
unfolding print_int print_nat
zero_text = refl

length-line : (x y : ℤ) → length (line x y) ≡ length (print_int x) + length (print_int y) + 3
unfolding line
length-line x y = omega (
  arith,
  length-append (print_int x) (32 ∷ (print_int y ++ 32 ∷ print_int (pos 0))),
  length-append (print_int y) (32 ∷ print_int (pos 0)),
  zero_text,
)

-- Whatever `random()` answers, the text and its final NUL fit the buffer of ten bytes.
coord_gen_fits : (random_x random_y : ℕ) → length (coord_gen random_x random_y) + 1 ≤ 10
unfolding coord_gen
coord_gen_fits random_x random_y = omega (
  arith,
  length-line (coordinate random_x) (coordinate random_y),
  length-coordinate random_x,
  length-coordinate random_y,
)
