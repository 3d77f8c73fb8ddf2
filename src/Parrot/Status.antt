-- ===== src/Parrot/Status.antt =====
-- The sysfs files `status_read` and `status_written` of parrot_driver.c, and what a user learns of
-- the mailbox from them.
use l3_dd_trg.Base.{
  ℕ, ◌+◌, ◌-◌, ◌%◌, ◌≡◌, refl, ap, Option, none, some, List, [], ◌∷◌, ◌++◌, length, arith,
}
use l3_dd_trg.Base.Int.{ℤ, pos}
use l3_dd_trg.Base.Decimal.{print_nat, scan_nat, scan_nat-print_nat}
use l3_dd_trg.Parrot.{Parrot}
use l3_dd_trg.Parrot.Kfifo.{Kfifo}
use l3_dd_trg.Parrot.Mailbox.{Mailbox}
use l3_dd_trg.Parrot.Refine.{Holds}

-- `sprintf(buf, "%d\n", n)`
abbrev number_line : ℕ → ℤ × List ℕ
number_line n = let text = print_nat n ++ 10 ∷ [] in (pos (length text), text)

module _ {F : Type 0} where
  unfoldable pub sysfs_fifo_status_read : Parrot F → ℤ × List ℕ
  sysfs_fifo_status_read p = number_line p.idx_rd

  unfoldable pub sysfs_fifo_status_written : Parrot F → ℤ × List ℕ
  sysfs_fifo_status_written p = number_line p.idx_wr

number_of : Option (ℕ × List ℕ) → ℕ
number_of none = 0
number_of (some (n, rest)) = n

-- The number that a user reads in a text.
unfoldable pub shown : List ℕ → ℕ
unfolding number_of
shown text = number_of (scan_nat text)

shown-number_line : (n : ℕ) → shown (number_line n).1 ≡ n
unfolding shown number_of
shown-number_line n = ap number_of (scan_nat-print_nat n (10 ∷ []) refl)

-- On a state that holds a mailbox: the number in `status_written` less that in `status_read`, modulo
-- 128, is the number of messages that wait.
status_lem :
    (k : Kfifo) (p : Parrot k.Fifo) (b : Mailbox)
    → Holds k p b
    → (shown (sysfs_fifo_status_written p).1 + 128 - shown (sysfs_fifo_status_read p).1) % 128
      ≡ length b.messages
unfolding sysfs_fifo_status_read sysfs_fifo_status_written
status_lem k p b h =
    omega
      (arith, shown-number_line p.idx_rd, shown-number_line p.idx_wr, h.reader, h.writer, h.room)
