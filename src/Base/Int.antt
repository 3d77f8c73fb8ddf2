-- ===== src/Base/Int.antt =====
-- C's signed integers over the native numbers, and the error numbers that the drivers return.
use Prim.Native.Nat.{ℕ, suc, ◌+◌, ◌-◌, ◌%◌, ◌*◌, ◌≤◌, ◌^◌}
use mathlib.Core.Bool.{Bool, true, false}
use mathlib.Core.Path.{◌≡◌}
use mathlib.Core.Logic.{◌≢◌}
use native.Mathlib.Omega.{arith}
use l3_dd_trg.Base.Tests.{ltb, leb, ◌==◌, if◌then◌else◌}

-- `negsuc n` is -(n + 1).
pub data ℤ : Type 0 where
  pos : ℕ → ℤ
  negsuc : ℕ → ℤ

abbrev pub pos_part : ℤ → ℕ
pos_part (pos n) = n
pos_part (negsuc n) = 0

abbrev pub neg_part : ℤ → ℕ
neg_part (pos n) = 0
neg_part (negsuc n) = suc n

-- a - b, as an integer.
abbrev pub sub_ℕ : ℕ → ℕ → ℤ
sub_ℕ a b = if leb b a then pos (a - b) else negsuc (b - a - 1)

infixl 70 ◌*ℤ◌
infix 50 ◌≤ℤ◌
unfoldable pub ◌*ℤ◌ : ℤ → ℤ → ℤ
a *ℤ b =
    sub_ℕ (pos_part a * pos_part b + neg_part a * neg_part b)
      (pos_part a * neg_part b + neg_part a * pos_part b)

abbrev pub ◌≤ℤ◌ : ℤ → ℤ → Type 0
a ≤ℤ b = pos_part a + neg_part b ≤ pos_part b + neg_part a

-- `x < 0`, `x <= 0` and `x == 0`
abbrev pub is_negative : ℤ → Bool
is_negative z = ltb 0 (neg_part z)

abbrev pub is_nonpositive : ℤ → Bool
is_nonpositive z = pos_part z == 0

abbrev pub is_zero : ℤ → Bool
is_zero z = pos_part z + neg_part z == 0

pub eq-zero : (z : ℤ) → is_zero z ≡ true → z ≡ pos 0
eq-zero z h = ground arith

pub ne-zero : (z : ℤ) → is_zero z ≡ false → z ≢ pos 0
ne-zero z h = ground arith

-- the two's complement reading of a word of 32 bits
abbrev signed32 : ℕ → ℤ
signed32 w = if ltb w (2 ^ 31) then pos w else negsuc (2 ^ 32 - w - 1)

-- an unsigned number that becomes an `int`
abbrev pub to_int : ℕ → ℤ
to_int n = signed32 (n % 2 ^ 32)

-- a `size_t` that is returned as an `ssize_t`
abbrev pub to_ssize : ℕ → ℤ
to_ssize n =
    if ltb (n % 2 ^ 64) (2 ^ 63) then pos (n % 2 ^ 64) else negsuc (2 ^ 64 - n % 2 ^ 64 - 1)

-- the error numbers of `errno.h`, negated as the kernel returns them
abbrev pub eperm : ℤ
eperm = negsuc 0

abbrev pub enoent : ℤ
enoent = negsuc 1

abbrev pub eintr : ℤ
eintr = negsuc 3

abbrev pub eio : ℤ
eio = negsuc 4

abbrev pub enxio : ℤ
enxio = negsuc 5

abbrev pub enomem : ℤ
enomem = negsuc 11

abbrev pub eacces : ℤ
eacces = negsuc 12

abbrev pub efault : ℤ
efault = negsuc 13

abbrev pub ebusy : ℤ
ebusy = negsuc 15

abbrev pub enodev : ℤ
enodev = negsuc 18

abbrev pub einval : ℤ
einval = negsuc 21

abbrev pub enotty : ℤ
enotty = negsuc 24

abbrev pub enospc : ℤ
enospc = negsuc 27

abbrev pub enosys : ℤ
enosys = negsuc 37

abbrev pub econnreset : ℤ
econnreset = negsuc 103

abbrev pub eshutdown : ℤ
eshutdown = negsuc 107
