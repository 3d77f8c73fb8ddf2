-- ===== src/Base/Text.antt =====
-- Texts in memory, which end at a NUL, and the hexadecimal digits of printf.
use l3_dd_trg.Base.Tests.{◌==◌, ltb, if◌then◌else◌}
use l3_dd_trg.Base.Lists.{length, set}
use l3_dd_trg.Base.Bytes.{overwrite, overwrite-nil}
use Prim.Native.Nat.{ℕ, ◌+◌, ◌-◌, ◌/◌, ◌%◌, ◌<◌}
use mathlib.Core.Path.{◌≡◌, refl, ap, sym}
use mathlib.Core.Bool.{false}
use mathlib.Core.List.{List, [], ◌∷◌, ◌++◌}
use native.Mathlib.Omega.{arith}

-- A text in memory: the bytes up to the first NUL.
abbrev pub text_at : List ℕ → List ℕ
text_at [] = []
text_at (c ∷ s) = let more = text_at s in if c == 0 then [] else c ∷ more

abbrev pub NoneNul : List ℕ → Type 0
NoneNul [] = Unit
NoneNul (c ∷ s) = (0 < c) × NoneNul s

pub text_at-overwrite :
    (old name : List ℕ)
    → NoneNul name
    → length name < length old
    → text_at (overwrite old 0 (name ++ 0 ∷ [])) ≡ name
text_at-overwrite [] name n h = absurd (omega arith)
text_at-overwrite (x ∷ old) [] n h = refl
text_at-overwrite (x ∷ old) (c ∷ name) n h =
    let not_nul : (c == 0) ≡ false = ground (arith, n.0) in
    rw not_nul (ap (λ s. c ∷ s) (text_at-overwrite old name n.1 (omega arith)))

-- A NUL behind what was copied in.
pub overwrite-nul :
    (buf d : List ℕ)
    → length d < length buf
    → set (overwrite buf 0 d) (length d) 0 ≡ overwrite buf 0 (d ++ 0 ∷ [])
overwrite-nul [] d h = absurd (omega arith)
overwrite-nul (x ∷ buf) [] h = ap (λ b. 0 ∷ b) (sym (overwrite-nil buf 0))
overwrite-nul (x ∷ buf) (c ∷ d) h = ap (λ b. c ∷ b) (overwrite-nul buf d (omega arith))

-- A digit of printf's `x`.
abbrev hex_digit : ℕ → ℕ
hex_digit n = if ltb n 10 then 48 + n else 87 + n

-- `%02x` of a byte
abbrev pub hex2 : ℕ → List ℕ
hex2 n = hex_digit (n / 16 % 16) ∷ hex_digit (n % 16) ∷ []

-- `%04x` of a number of 16 bits
abbrev pub hex4 : ℕ → List ℕ
hex4 n = hex2 (n / 256) ++ hex2 (n % 256)

abbrev pub hex_value : ℕ → ℕ
hex_value c = if ltb c 58 then c - 48 else c - 87

pub hex_value-hex_digit : (n : ℕ) → n < 16 → hex_value (hex_digit n) ≡ n
hex_value-hex_digit n h = ground arith
