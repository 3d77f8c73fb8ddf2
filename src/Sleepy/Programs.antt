-- ===== src/Sleepy/Programs.antt =====
-- The programs sleepy_waitq/rd_tst.c and wr_tst.c, run against the driver slpy.c.
use l3_dd_trg.Base.{
  ℕ, ◌-◌, ◌^◌, ◌≡◌, Bool, true, not, Option, none, some, List, ltb, ◌==◌, if◌then◌else◌, arith,
}
use l3_dd_trg.Base.Int.{ℤ, pos, negsuc, is_negative}
use l3_dd_trg.Base.Decimal.{print_int, narrow, atoi, atoi-print_int}
use l3_dd_trg.Sleepy.{Phase, testing, waiting, returned, System, sleepy_read, sleepy_write}

-- What the system answers to rd_tst.c.
pub record ReaderAnswers : Type 0 where
  pub sigaction : Bool
  pub opened : Bool
  pub malloc : Bool

-- an `int` that becomes a `size_t`
abbrev int_to_size : ℤ → ℕ
int_to_size (pos n) = n
int_to_size (negsuc n) = 2 ^ 64 - 1 - n

-- `main` of rd_tst.c, given what `read` returns for a number of bytes: the exit status, and the
-- number of bytes that it prints.
unfoldable rd_tst : ReaderAnswers → ℕ → List ℕ → (ℕ → ℤ) → ℕ × Option ℤ
rd_tst a argc number read =
    let num = int_to_size (atoi number) in
    let n = read num in
    if not (argc == 3)
    then (1, none)
    else if not a.sigaction
    then (1, none)
    else if not a.opened
    then (1, none)
    else if ltb (2 ^ 31 - 1) num
    then (1, none)
    else if not a.malloc
    then (1, none)
    else if is_negative n
    then (1, none)
    else (0, some n)

-- `main` of wr_tst.c: the exit status, the number that it prints, and the driver.
unfoldable wr_tst : ℕ → Bool → System → ℕ × Option ℤ × System
wr_tst argc opened s =
    let (n, s') = sleepy_write s 1024 in
    if argc == 1
    then (1, none, s)
    else if not opened
    then (1, none, s)
    else if is_negative n
    then (1, none, s')
    else (0, some n, s')

-- What a call has returned; 0 for one that has not.
abbrev result : Phase → ℤ
result (returned r) = r
result (testing count) = pos 0
result (waiting count) = pos 0

-- The driver's answer to a `read` that finds the device as it is.
unfoldable read_at : System → ℕ → ℤ
unfolding sleepy_read
read_at s count = result (sleepy_read s.data_present (testing count))

-- After wr_tst.c ran, rd_tst.c with any number of the type `int` as its argument prints just that
-- number as the bytes that were read, if it is not negative, and otherwise fails: the driver keeps
-- no data, and answers every read in full.
rd_tst-wr_tst :
    (s : System) (z : ℤ)
    → narrow z ≡ z
    → let a : ReaderAnswers = record { sigaction = true; opened = true; malloc = true } in
      rd_tst a 3 (print_int z) (read_at (wr_tst 2 true s).2)
      ≡ (if is_negative z then (1, none) else (0, some z))
unfolding rd_tst wr_tst read_at sleepy_read sleepy_write
rd_tst-wr_tst s (pos n) h = rw (atoi-print_int (pos n), h) (ground (arith, h))
rd_tst-wr_tst s (negsuc n) h = rw (atoi-print_int (negsuc n), h) (ground (arith, h))
