-- ===== src/Parrot/Race.antt =====
-- A writer in `sysfs_add_to_fifo` and a reader in `parrot_device_read` of parrot_driver.c at once: no
-- lock is taken by both, so their statements come in any order. A step is a test, a call with its
-- arguments or an assignment; the reader's first two tests are one step, and its last two assignments,
-- since nobody else writes what the extra one concerns.
pub mod Between
pub mod Writer
pub mod Steps
pub mod Order
pub mod Early
pub mod Writers
pub mod Wedged
use l3_dd_trg.Base.{
  ℕ, ◌+◌, ◌-◌, ◌%◌, ◌≡◌, refl, Bool, true, false, List, [], ◌∷◌, ◌==◌, ◌&&◌, ltb, length, get_or,
  set, arith, if◌then◌else◌,
}
use l3_dd_trg.Base.Int.{ℤ, pos, efault, enospc}
use l3_dd_trg.Parrot.{Parrot, fifo_max, parrot_device_read, sysfs_add_to_fifo}
use l3_dd_trg.Parrot.Kfifo.{Kfifo}

-- Where a writer stands; `storing` and `advancing` have what was copied.
pub data Adding : Type 0 where
  testing_room : Adding
  testing_table : Adding
  putting : Adding
  storing : ℕ → Adding
  advancing : ℕ → Adding
  added : ℤ → Adding

-- Where a reader stands; `counting` and `finished` have its result and the bytes that it got.
pub data Reading : Type 0 where
  asking : Reading
  copying : Reading
  counting : ℤ → List ℕ → Reading
  finished : ℤ → List ℕ → Reading

pub data Turn : Type 0 where
  reader writer : Turn

module _ (k : Kfifo) where
  unfoldable pub add_step : Parrot k.Fifo → List ℕ → Adding → Parrot k.Fifo × Adding
  add_step p buf testing_room =
      if ltb (k.avail p.fifo) (length buf) then (p, added enospc) else (p, testing_table)
  add_step p buf testing_table =
      if (p.idx_wr + 1) % fifo_max == p.idx_rd then (p, added enospc) else (p, putting)
  add_step p buf putting =
      let (copied, fifo') = k.put p.fifo buf in (record p { fifo = fifo' }, storing copied)
  add_step p buf (storing copied) =
      (record p { msg_len = set p.msg_len p.idx_wr copied }, advancing copied)
  add_step p buf (advancing copied) =
      (record p { idx_wr = (p.idx_wr + 1) % fifo_max }, added (pos copied))
  add_step p buf (added r) = (p, added r)

  unfoldable pub read_step : Parrot k.Fifo → Bool → Reading → Parrot k.Fifo × Reading
  read_step p fault asking =
      if p.one_shot && p.message_read
      then (p, finished (pos 0) [])
      else if k.is_empty p.fifo
      then (p, finished (pos 0) [])
      else (p, copying)
  read_step p fault copying =
      let got = k.to_user p.fifo (get_or p.msg_len p.idx_rd 0) fault in
      (record p { fifo = got.2 }, counting (if fault then efault else pos got.0) got.1)
  read_step p fault (counting r bytes) =
      (record p { idx_rd = (p.idx_rd + 1) % fifo_max; message_read = true }, finished r bytes)
  read_step p fault (finished r bytes) = (p, finished r bytes)

  -- The threads' states after these turns; no copy to the user faults.
  unfoldable pub race :
      List Turn → List ℕ → Parrot k.Fifo → Adding → Reading → Parrot k.Fifo × Adding × Reading
  race [] buf p w r = (p, w, r)
  race (writer ∷ turns) buf p w r = let (p', w') = add_step p buf w in race turns buf p' w' r
  race (reader ∷ turns) buf p w r = let (p', r') = read_step p false r in race turns buf p' w r'

  -- The writer alone, five steps: the whole function.
  pub add_step-sysfs_add_to_fifo :
      (p : Parrot k.Fifo) (buf : List ℕ) (r : Reading)
      → let (result, p') = sysfs_add_to_fifo k p buf in
        race (writer ∷ writer ∷ writer ∷ writer ∷ writer ∷ []) buf p testing_room r
        ≡ (p', added result, r)
  unfolding race add_step sysfs_add_to_fifo
  add_step-sysfs_add_to_fifo p buf r = ground arith

  -- The reader alone, three steps: the whole function.
  pub read_step-parrot_device_read :
      (p : Parrot k.Fifo) (buf : List ℕ) (n : ℕ) (w : Adding)
      → let (result, bytes, p') = parrot_device_read k p n false in
        race (reader ∷ reader ∷ reader ∷ []) buf p w asking ≡ (p', w, finished result bytes)
  unfolding race read_step parrot_device_read
  read_step-parrot_device_read p buf n w = ground arith
