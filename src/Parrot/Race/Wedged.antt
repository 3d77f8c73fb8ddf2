-- ===== src/Parrot/Race/Wedged.antt =====
-- A reset through sysfs while a reader is in `parrot_device_read` of parrot_driver.c.
use l3_dd_trg.Base.{
  ℕ, ◌<◌, ◌≡◌, ◌∙◌, refl, ap, Bool, false, List, [], ◌∷◌, ◌&&◌, length, get_or, arith,
}
use l3_dd_trg.Base.Int.{ℤ, pos, enospc}
use l3_dd_trg.Base.Bytes.{gather}
use l3_dd_trg.Parrot.{
  Parrot, parrot_device_open, parrot_device_close, parrot_device_read, sysfs_add_to_fifo,
  sysfs_reset,
}
use l3_dd_trg.Parrot.Kfifo.{Kfifo}
use l3_dd_trg.Parrot.Mailbox.{Mailbox, Op, Reply, open_for, close, read, add, reset}
use l3_dd_trg.Parrot.Refine.{Holds, step, run, not-is_empty, to_user_first}
use l3_dd_trg.Parrot.Race.{Reading, asking, finished, read_step}

-- Where a reset stands: `kfifo_reset`, then the two indices.
pub data Resetting : Type 0 where
  emptying zeroing : Resetting
  was_reset : ℤ → Resetting

pub data Party : Type 0 where
  reader resetter : Party

module _ (k : Kfifo) where
  unfoldable pub reset_step : Parrot k.Fifo → ℕ → Resetting → Parrot k.Fifo × Resetting
  reset_step p count emptying = (record p { fifo = k.reset p.fifo }, zeroing)
  reset_step p count zeroing = (record p { idx_rd = 0; idx_wr = 0 }, was_reset (pos count))
  reset_step p count (was_reset r) = (p, was_reset r)

  -- The parties' states after these turns; no copy to the user faults.
  unfoldable pub read_and_reset :
      List Party → ℕ → Parrot k.Fifo → Reading → Resetting → Parrot k.Fifo × Reading × Resetting
  read_and_reset [] count p r s = (p, r, s)
  read_and_reset (reader ∷ turns) count p r s =
      let (p', r') = read_step k p false r in read_and_reset turns count p' r' s
  read_and_reset (resetter ∷ turns) count p r s =
      let (p', s') = reset_step p count s in read_and_reset turns count p' r s'

  -- The reset alone, two steps: the whole function.
  pub reset_step-sysfs_reset :
      (p : Parrot k.Fifo) (count : ℕ) (r : Reading)
      → let (result, p') = sysfs_reset k p count in
        read_and_reset (resetter ∷ resetter ∷ []) count p r emptying ≡ (p', r, was_reset result)
  unfolding read_and_reset reset_step sysfs_reset
  reset_step-sysfs_reset p count r = refl

  -- Nothing is in the FIFO, and the indices say that the table is full.
  pub record IsWedged (p : Parrot k.Fifo) : Type 0 where
    pub bytes : k.contents p.fifo ≡ []
    pub one : p.idx_rd ≡ 1
    pub zero : p.idx_wr ≡ 0

-- The reset comes between the copy of the reader and its assignment to the index.
abbrev pub in_between : List Party
in_between = reader ∷ reader ∷ resetter ∷ resetter ∷ reader ∷ []

-- Nobody resets.
abbrev NoReset : List Op → Type 0
NoReset [] = Unit
NoReset (reset n ∷ ops) = ⊥
NoReset (_ ∷ ops) = NoReset ops

-- Every message is refused for lack of space, and no read gives a byte.
abbrev IsDeaf : Op → Reply → Type 0
IsDeaf (add msg) r = r ≡ (enospc, [])
IsDeaf (read n) r = r ≡ (pos 0, [])
IsDeaf _ r = Unit

abbrev pub AllDeaf : List Op → List Reply → Type 0
AllDeaf (op ∷ ops) (r ∷ rs) = IsDeaf op r × AllDeaf ops rs
AllDeaf [] [] = Unit
AllDeaf _ _ = ⊥

module _ (k : Kfifo) where
  deaf_add :
      (p : Parrot k.Fifo) (msg : List ℕ) → IsWedged k p → step k p (add msg) ≡ ((enospc, []), p)
  unfolding step sysfs_add_to_fifo
  deaf_add p msg h = ground (arith, h.one, h.zero)

  deaf_read : (p : Parrot k.Fifo) (n : ℕ) → IsWedged k p → step k p (read n) ≡ ((pos 0, []), p)
  unfolding step parrot_device_read
  deaf_read p n h = ground (arith, (k.is_empty_iff p.fifo).1 h.bytes)

  open-IsWedged :
      (p : Parrot k.Fifo) (writing : Bool)
      → IsWedged k p
      → IsWedged k (step k p (open_for writing)).1
  unfolding step parrot_device_open
  open-IsWedged p writing h = ground arith

  close-IsWedged : (p : Parrot k.Fifo) → IsWedged k p → IsWedged k (step k p close).1
  unfolding step parrot_device_close
  close-IsWedged p h = ground arith

  deaf :
      (ops : List Op) (p : Parrot k.Fifo) → IsWedged k p → NoReset ops → AllDeaf ops (run k p ops)
  unfolding run
  deaf [] p h n = tt
  deaf (open_for writing ∷ ops) p h n =
      (tt, deaf ops (step k p (open_for writing)).1 (open-IsWedged p writing h) n)
  deaf (close ∷ ops) p h n = (tt, deaf ops (step k p close).1 (close-IsWedged p h) n)
  deaf (read m ∷ ops) p h n = rw (deaf_read p m h) (refl, deaf ops p h n)
  deaf (add msg ∷ ops) p h n = rw (deaf_add p msg h) (refl, deaf ops p h n)
  deaf (reset m ∷ ops) p h n = absurd n

  in_between_lem :
      (p : Parrot k.Fifo) (b : Mailbox) (msg : List ℕ) (rest : List (List ℕ)) (count : ℕ)
      → Holds k p b
      → b.messages ≡ msg ∷ rest
      → (b.one_shot && b.seen) ≡ false
      → let (p', r, s) = read_and_reset k in_between count p asking emptying in
        (r ≡ finished (pos (length msg)) msg) × (s ≡ was_reset (pos count)) × IsWedged k p'
  unfolding read_and_reset read_step reset_step
  in_between_lem p b msg rest count h e unseen =
      let bytes = h.bytes ∙ ap gather e in
      let first : get_or p.msg_len p.idx_rd 0 ≡ length msg = (rw e at (h.lengths)).0 in
      let some_bytes : 0 < length msg = (rw e at (h.nonempty)).0 in
      ground (
        arith,
        not-is_empty k p.fifo msg rest bytes some_bytes,
        to_user_first k p.fifo msg rest (get_or p.msg_len p.idx_rd 0) bytes first,
        k.reset_lem (k.to_user p.fifo (get_or p.msg_len p.idx_rd 0) false).2,
        h.one_shot,
        h.seen,
      )

  -- Over any FIFO with the documented laws, from a state that holds a box with a message in it, of which
  -- a read may still give one: a read, and a reset that comes after the reader has copied the message and
  -- before it moves the index. The read returns the message and the reset succeeds; but from then on,
  -- whatever calls are made, until the next reset: every message that is put in is refused for lack of
  -- space, and every read returns 0 and no byte.
  pub reset_wedges :
      (p : Parrot k.Fifo) (b : Mailbox) (msg : List ℕ) (rest : List (List ℕ)) (count : ℕ)
      (ops : List Op)
      → Holds k p b
      → b.messages ≡ msg ∷ rest
      → (b.one_shot && b.seen) ≡ false
      → NoReset ops
      → let (p', r, s) = read_and_reset k in_between count p asking emptying in
        (r ≡ finished (pos (length msg)) msg)
        × (s ≡ was_reset (pos count))
        × AllDeaf ops (run k p' ops)
  reset_wedges p b msg rest count ops h e unseen none =
      let (got, done, wedged) = in_between_lem p b msg rest count h e unseen in
      (got, done, deaf ops (read_and_reset k in_between count p asking emptying).0 wedged none)
