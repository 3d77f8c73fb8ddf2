-- ===== src/Convenient/Delta.antt =====
-- SHOW_DELTA of convenient.h, on a machine of 64 bits.
use l3_dd_trg.Base.{
  ℕ, suc, ◌+◌, ◌-◌, ◌/◌, ◌%◌, ◌^◌, ◌<◌, ◌≡◌, refl, ap, Bool, true, false, Option, none, some, List,
  [], ◌∷◌, ◌++◌, drop, ltb, leb, if◌then◌else◌, arith, Bool-cases, inl, inr,
}
use l3_dd_trg.Base.Int.{ℤ, pos, negsuc, is_negative, pos_part}
use l3_dd_trg.Base.Decimal.{print_int, scan_int, scan_int-print_int, negated}

-- the two's complement reading of a word of 64 bits
abbrev signed64 : ℕ → ℤ
signed64 w = if ltb w (2 ^ 63) then pos w else negsuc (2 ^ 64 - w - 1)

-- division in C, which rounds toward 0
abbrev over : ℤ → ℕ → ℤ
over (pos n) d = pos (n / d)
over (negsuc n) d = negated (suc n / d)

-- `time_after(a, b)`: `(long)(b - a) < 0`
abbrev time_after : ℕ → ℕ → Bool
time_after a b = is_negative (signed64 ((b + 2 ^ 64 - a) % 2 ^ 64))

-- What SHOW_DELTA prints: the warning, or a text.
pub data Shown : Type 0 where
  warned : Shown
  text : List ℕ → Shown

abbrev at_least_one : ℤ → Bool
at_least_one z = leb 1 (pos_part z)

-- The text after the digits of the nanoseconds.
after_ns : ℤ → List ℕ
after_ns delta_ns =
    let us = over delta_ns 1000 in
    let ms = over delta_ns 1000000 in
    b' '
    ∷ b'n'
    ∷ b's'
    ∷ ((if at_least_one us
          then b' ' ∷ b'(' ∷ b'~' ∷ b' ' ∷ (print_int us ++ b' ' ∷ b'u' ∷ b's' ∷ [])
          else [])
        ++ (if at_least_one ms
            then b' ' ∷ b'~' ∷ b' ' ∷ (print_int ms ++ b' ' ∷ b'm' ∷ b's' ∷ [])
            else [])
        ++ (if at_least_one us then b')' ∷ 10 ∷ [] else []))

-- `SHOW_DELTA(later, earlier)`, of two words of 64 bits.
unfoldable show_delta : ℕ → ℕ → Shown
unfolding after_ns
show_delta later earlier =
    let delta_ns = signed64 ((later + 2 ^ 64 - earlier) % 2 ^ 64) in
    if time_after later earlier
    then text
        (b'd' ∷ b'e' ∷ b'l' ∷ b't' ∷ b'a' ∷ b':' ∷ b' ' ∷ (print_int delta_ns ++ after_ns delta_ns))
    else warned

number_of : Option (ℤ × List ℕ) → Option ℤ
number_of none = none
number_of (some (n, rest)) = some n

-- The number that a reader finds after "delta: ".
unfoldable read_delta : Shown → Option ℤ
unfolding number_of
read_delta warned = none
read_delta (text t) = number_of (scan_int (drop 7 t))

read_delta-text :
    (d : ℤ)
    → read_delta
        (text (b'd' ∷ b'e' ∷ b'l' ∷ b't' ∷ b'a' ∷ b':' ∷ b' ' ∷ (print_int d ++ after_ns d)))
      ≡ some d
unfolding read_delta after_ns
read_delta-text d = ap number_of (scan_int-print_int d _ refl)

-- Of two times less than 2^63 nanoseconds apart: if the first is the later one, the line shows their
-- difference; otherwise it is the warning.
read_delta-show_delta :
    (later earlier : ℕ)
    → later < 2 ^ 64
    → earlier < 2 ^ 64
    → later < earlier + 2 ^ 63
    → earlier < later + 2 ^ 63
    → read_delta (show_delta later earlier)
      ≡ (if ltb earlier later then some (pos (later - earlier)) else none)
unfolding show_delta
read_delta-show_delta later earlier l e near far = elim (Bool-cases (ltb earlier later)) [
  | inl after ↦
      let yes_after : time_after later earlier ≡ true = ground arith in
      let delta : signed64 ((later + 2 ^ 64 - earlier) % 2 ^ 64) ≡ pos (later - earlier) =
        ground arith in
      rw (after, yes_after, delta) (read_delta-text (pos (later - earlier)))
  | inr before ↦
      let not_after : time_after later earlier ≡ false = ground arith in
      rw (before, not_after) (unfold read_delta in refl)
]
