-- ===== src/Parrot/Kfifo.antt =====
-- The kernel's FIFO as the driver uses it: its functions, and what linux/kfifo.h says of them.
use l3_dd_trg.Base.{
  ℕ, ◌+◌, ◌-◌, ◌≤◌, ◌≡◌, ◌↔◌, Bool, true, false, List, [], ◌++◌, length, take, drop,
}

-- PARROT_MSG_FIFO_SIZE
abbrev pub fifo_size : ℕ
fifo_size = 1024

pub record Kfifo : Type 1 where
  pub Fifo : Type 0
  -- the bytes that are in the FIFO, oldest first
  pub contents : Fifo → List ℕ
  pub is_empty : Fifo → Bool
  pub avail : Fifo → ℕ
  pub put : Fifo → List ℕ → ℕ × Fifo
  -- the number of bytes copied, those bytes, and the FIFO
  pub to_user : Fifo → ℕ → Bool → ℕ × List ℕ × Fifo
  pub reset : Fifo → Fifo
  pub bounded : (f : Fifo) → length (contents f) ≤ fifo_size
  pub is_empty_iff : (f : Fifo) → (is_empty f ≡ true) ↔ (contents f ≡ [])
  pub avail_lem : (f : Fifo) → avail f ≡ fifo_size - length (contents f)
  pub put_lem :
      (f : Fifo) (b : List ℕ)
      → length (contents f) + length b ≤ fifo_size
      → ((put f b).0 ≡ length b) × (contents (put f b).1 ≡ contents f ++ b)
  pub to_user_lem :
      (f : Fifo) (n : ℕ)
      → n ≤ length (contents f)
      → ((to_user f n false).0 ≡ n)
        × ((to_user f n false).1 ≡ take n (contents f))
        × (contents (to_user f n false).2 ≡ drop n (contents f))
  pub reset_lem : (f : Fifo) → contents (reset f) ≡ []
