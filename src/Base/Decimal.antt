-- ===== src/Base/Decimal.antt =====
-- Decimal text: what `printf` writes for `%d` and `%ld`, and what `sscanf` reads for `%d`. A text is
-- the list of its bytes.
use Prim.Native.Nat.{ℕ, zero, suc, ◌+◌, ◌-◌, ◌*◌, ◌/◌, ◌%◌, ◌^◌, ◌≤◌, ◌<◌}
use mathlib.Core.Path.{◌≡◌, refl, sym, ap, ◌∙◌}
use mathlib.Core.Bool.{Bool, true, false, ◌&&◌, ◌||◌}
use mathlib.Core.Option.{Option, none, some}
use mathlib.Core.List.{List, [], ◌∷◌, ◌++◌, append-nil}
use mathlib.Core.Logic.{inl, inr}
use native.Mathlib.Omega.{arith}
use l3_dd_trg.Base.Tests.{ltb, leb, ◌==◌, if◌then◌else◌, ◌>>=◌, Bool-cases}
use l3_dd_trg.Base.Lists.{length, length-append}
use l3_dd_trg.Base.Int.{ℤ, pos, negsuc, to_int}

digits_fuel : ℕ → ℕ → List ℕ
digits_fuel zero n = []
digits_fuel (suc f) n =
    let more = digits_fuel f (n / 10) in
    if ltb n 10 then (n + 48) ∷ [] else more ++ (n % 10 + 48) ∷ []

-- the decimal digits of a number; it has no more digits than its value and one
unfoldable pub print_nat : ℕ → List ℕ
unfolding digits_fuel
print_nat n = digits_fuel (suc n) n

unfoldable pub print_int : ℤ → List ℕ
unfolding print_nat
print_int (pos n) = print_nat n
print_int (negsuc n) = b'-' ∷ print_nat (suc n)

abbrev is_digit : ℕ → Bool
is_digit c = leb 48 c && leb c 57

abbrev is_space : ℕ → Bool
is_space c = c == 32 || leb 9 c && leb c 13

-- The value of the digits at the front, after `acc`, and the rest.
unfoldable scan_digits : ℕ → List ℕ → ℕ × List ℕ
scan_digits acc [] = (acc, [])
scan_digits acc (c ∷ s) = if is_digit c then scan_digits (acc * 10 + (c - 48)) s else (acc, c ∷ s)

abbrev pub negated : ℕ → ℤ
negated zero = pos 0
negated (suc n) = negsuc n

unfoldable pub scan_nat : List ℕ → Option (ℕ × List ℕ)
unfolding scan_digits
scan_nat [] = none
scan_nat (c ∷ s) = if is_digit c then some (scan_digits 0 (c ∷ s)) else none

scan_signed : List ℕ → Option (ℤ × List ℕ)
unfolding scan_nat
scan_signed [] = none
scan_signed (c ∷ s) =
    if c == b'-'
    then (scan_nat s >>= λ (n, rest). some (negated n, rest))
    else (scan_nat (c ∷ s) >>= λ (n, rest). some (pos n, rest))

-- One `%d`: spaces, a sign, digits. `none` where no digit stands.
unfoldable pub scan_int : List ℕ → Option (ℤ × List ℕ)
unfolding scan_signed
scan_int [] = none
scan_int (c ∷ s) = if is_space c then scan_int s else scan_signed (c ∷ s)

-- a number stored in an `int`
abbrev pub narrow : ℤ → ℤ
narrow (pos n) = to_int n
narrow (negsuc n) = to_int (2 ^ 32 - 1 - n % 2 ^ 32)

-- A text at which digits stop.
abbrev StopsDigits : List ℕ → Type 0
StopsDigits [] = Unit
StopsDigits (c ∷ s) = is_digit c ≡ false

-- a text of digits only
abbrev pub AllDigits : List ℕ → Type 0
AllDigits [] = Unit
AllDigits (c ∷ s) = (is_digit c ≡ true) × AllDigits s

AllDigits-append : (s : List ℕ) (c : ℕ) → AllDigits s → is_digit c ≡ true → AllDigits (s ++ c ∷ [])
AllDigits-append [] c h k = (k, tt)
AllDigits-append (d ∷ s) c h k = (h.0, AllDigits-append s c h.1 k)

digits_fuel-AllDigits : (f n : ℕ) → AllDigits (digits_fuel f n)
unfolding digits_fuel
digits_fuel-AllDigits zero n = tt
digits_fuel-AllDigits (suc f) n = elim (Bool-cases (ltb n 10)) [
  | inl small ↦ rw small (ground arith, tt)
  | inr large ↦ rw large (
      AllDigits-append (digits_fuel f (n / 10)) (n % 10 + 48) (digits_fuel-AllDigits f (n / 10))
        (ground arith))
]

-- the value of a text of digits, after `acc`
abbrev value : ℕ → List ℕ → ℕ
value acc [] = acc
value acc (c ∷ s) = value (acc * 10 + (c - 48)) s

value-append :
    (acc : ℕ) (s : List ℕ) (c : ℕ) → value acc (s ++ c ∷ []) ≡ value acc s * 10 + (c - 48)
value-append acc [] c = refl
value-append acc (d ∷ s) c = value-append (acc * 10 + (d - 48)) s c

value-digits_fuel : (f n : ℕ) → n < f → value 0 (digits_fuel f n) ≡ n
unfolding digits_fuel
value-digits_fuel zero n h = absurd (omega arith)
value-digits_fuel (suc f) n h = elim (Bool-cases (ltb n 10)) [
  | inl small ↦ rw small (omega arith)
  | inr large ↦
      let ih = value-digits_fuel f (n / 10) (ground arith) in
      rw (large, value-append) (omega (arith, ih))
]

scan_digits_all :
    (acc : ℕ) (s rest : List ℕ)
    → AllDigits s
    → StopsDigits rest
    → scan_digits acc (s ++ rest) ≡ (value acc s, rest)
unfolding scan_digits
scan_digits_all acc [] [] h k = refl
scan_digits_all acc [] (c ∷ rest) h k = rw k
scan_digits_all acc (c ∷ s) rest h k = rw h.0 (scan_digits_all (acc * 10 + (c - 48)) s rest h.1 k)

-- A text with a first byte.
record IsNonempty (s : List ℕ) : Type 0 where
  first : ℕ
  others : List ℕ
  is_cons : s ≡ first ∷ others

IsNonempty-append : (s : List ℕ) (c : ℕ) → IsNonempty (s ++ c ∷ [])
IsNonempty-append [] c = record { first = c; others = []; is_cons = refl }
IsNonempty-append (d ∷ s) c = record { first = d; others = s ++ c ∷ []; is_cons = refl }

digits_fuel-IsNonempty : (f n : ℕ) → IsNonempty (digits_fuel (suc f) n)
unfolding digits_fuel
digits_fuel-IsNonempty f n = elim (Bool-cases (ltb n 10)) [
  | inl small ↦ rw small (record { first = n + 48; others = []; is_cons = refl })
  | inr large ↦ rw large (IsNonempty-append (digits_fuel f (n / 10)) (n % 10 + 48))
]

-- What follows a first digit is read as a number.
scan_nat_all :
    (s rest : List ℕ)
    → IsNonempty s
    → AllDigits s
    → StopsDigits rest
    → scan_nat (s ++ rest) ≡ some (value 0 s, rest)
unfolding scan_nat
scan_nat_all [] rest e h k = absurd (cc e.is_cons)
scan_nat_all (c ∷ s) rest e h k =
    rw h.0 (ap some (scan_digits_all (0 * 10 + (c - 48)) s rest h.1 k))

pub print_nat-AllDigits : (n : ℕ) → AllDigits (print_nat n)
unfolding print_nat
print_nat-AllDigits n = digits_fuel-AllDigits (suc n) n

print_nat-IsNonempty : (n : ℕ) → IsNonempty (print_nat n)
unfolding print_nat
print_nat-IsNonempty n = digits_fuel-IsNonempty n n

value-print_nat : (n : ℕ) → value 0 (print_nat n) ≡ n
unfolding print_nat
value-print_nat n = value-digits_fuel (suc n) n (omega arith)

-- A number that is printed is read back, whatever follows that is no digit.
pub scan_nat-print_nat :
    (n : ℕ) (rest : List ℕ) → StopsDigits rest → scan_nat (print_nat n ++ rest) ≡ some (n, rest)
scan_nat-print_nat n rest k =
    scan_nat_all (print_nat n) rest (print_nat-IsNonempty n) (print_nat-AllDigits n) k
    ∙ ap (λ v. some (v, rest)) (value-print_nat n)

-- A text that starts with a digit is read as a number without a sign.
scan_int_digits :
    (s rest : List ℕ) {n : ℕ}
    → IsNonempty s
    → AllDigits s
    → scan_nat (s ++ rest) ≡ some (n, rest)
    → scan_int (s ++ rest) ≡ some (pos n, rest)
unfolding scan_int scan_signed
scan_int_digits [] rest e h r = absurd (cc e.is_cons)
scan_int_digits (c ∷ s) rest e h r =
    let not_space : is_space c ≡ false = ground (arith, h.0) in
    let not_minus : (c == b'-') ≡ false = ground (arith, h.0) in rw (not_space, not_minus, r)

pub scan_int-print_int :
    (z : ℤ) (rest : List ℕ) → StopsDigits rest → scan_int (print_int z ++ rest) ≡ some (z, rest)
unfolding print_int
scan_int-print_int (pos n) rest k =
    scan_int_digits (print_nat n) rest (print_nat-IsNonempty n) (print_nat-AllDigits n)
      (scan_nat-print_nat n rest k)
scan_int-print_int (negsuc n) rest k =
    unfold scan_int scan_signed in rw (scan_nat-print_nat (suc n) rest k)

-- Spaces before the number are skipped.
pub scan_int-space : (s : List ℕ) → scan_int (32 ∷ s) ≡ scan_int s
unfolding scan_int
scan_int-space s = refl

-- `10 ^ k`
abbrev pub tens : ℕ → ℕ
tens zero = 1
tens (suc k) = 10 * tens k

length-digits_fuel : (k f n : ℕ) → n < tens (suc k) → length (digits_fuel f n) ≤ suc k
unfolding digits_fuel
length-digits_fuel k zero n h = omega arith
length-digits_fuel zero (suc f) n h = ground arith
length-digits_fuel (suc k) (suc f) n h = ground (
  arith,
  length-append (digits_fuel f (n / 10)) ((n % 10 + 48) ∷ []),
  length-digits_fuel k f (n / 10),
)

-- A number below `10 ^ (k + 1)` has at most that many digits.
pub length-print_nat : (k n : ℕ) → n < tens (suc k) → length (print_nat n) ≤ suc k
unfolding print_nat
length-print_nat k n h = length-digits_fuel k (suc n) n h

atoi_of : Option (ℤ × List ℕ) → ℤ
atoi_of none = pos 0
atoi_of (some (n, rest)) = narrow n

-- `atoi`
unfoldable pub atoi : List ℕ → ℤ
unfolding atoi_of
atoi text = atoi_of (scan_int text)

pub atoi-print_int : (z : ℤ) → atoi (print_int z) ≡ narrow z
unfolding atoi atoi_of
atoi-print_int z =
    ap (λ t. atoi_of (scan_int t)) (sym (append-nil (print_int z)))
    ∙ ap atoi_of (scan_int-print_int z [] tt)
