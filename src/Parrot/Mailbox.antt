-- ===== src/Parrot/Mailbox.antt =====
-- What the parrot promises: a box of whole messages, first in first out, for one reader at a time.
use l3_dd_trg.Base.{
  ℕ, ◌+◌, Bool, true, false, List, [], ◌∷◌, ◌++◌, ◌&&◌, ◌||◌, leb, ltb, length, if◌then◌else◌,
}
use l3_dd_trg.Base.Int.{ℤ, pos, eacces, ebusy, enospc}
use l3_dd_trg.Base.Bytes.{gather}
use l3_dd_trg.Parrot.Kfifo.{fifo_size}

pub record Mailbox : Type 0 where
  pub messages : List (List ℕ)
  pub seen : Bool
  pub taken : Bool
  pub one_shot : Bool

-- The calls of the driver's users; `read` asks for a number of bytes.
pub data Op : Type 0 where
  open_for : Bool → Op
  close : Op
  read : ℕ → Op
  add : List ℕ → Op
  reset : ℕ → Op

abbrev pub Reply : Type 0
Reply = ℤ × List ℕ

-- A message is handed out whole.
unfoldable pub take_one : List (List ℕ) → Mailbox → Reply × Mailbox
take_one [] b = ((pos 0, []), b)
take_one (msg ∷ rest) b = ((pos (length msg), msg), record b { messages = rest; seen = true })

unfoldable pub step : Mailbox → Op → Reply × Mailbox
unfolding take_one
step b (open_for writing) =
    if writing
    then ((eacces, []), b)
    else if b.taken
    then ((ebusy, []), b)
    else ((pos 0, []), record b { taken = true; seen = false })
step b close = ((pos 0, []), record b { taken = false })
step b (read n) = if b.one_shot && b.seen then ((pos 0, []), b) else take_one b.messages b
step b (add msg) =
    if ltb fifo_size (length (gather b.messages) + length msg) || leb 127 (length b.messages)
    then ((enospc, []), b)
    else ((pos (length msg), []), record b { messages = b.messages ++ msg ∷ [] })
step b (reset n) = ((pos n, []), record b { messages = [] })

unfoldable pub run : Mailbox → List Op → List Reply
run b [] = []
run b (op ∷ ops) = let (r, b') = step b op in r ∷ run b' ops
