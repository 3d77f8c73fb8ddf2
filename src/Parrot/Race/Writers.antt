-- ===== src/Parrot/Race/Writers.antt =====
-- Two writers in `sysfs_add_to_fifo` of parrot_driver.c at once.
use l3_dd_trg.Base.{
  ℕ, ◌+◌, ◌%◌, ◌≤◌, ◌<◌, ◌≡◌, ◌∙◌, ap, List, [], ◌∷◌, ◌++◌, length, length-append, length-set,
  get_or, set, get_or-set_self, get_or-set_ne, ◌≢◌, arith,
}
use l3_dd_trg.Base.Int.{pos}
use l3_dd_trg.Parrot.{Parrot}
use l3_dd_trg.Parrot.Kfifo.{Kfifo}
use l3_dd_trg.Parrot.Mailbox.{Mailbox}
use l3_dd_trg.Parrot.Refine.{Holds}
use l3_dd_trg.Parrot.Race.{Adding, testing_room, added, add_step}

pub data Writer : Type 0 where
  first second : Writer

module _ (k : Kfifo) where
  -- The two writers' states after these turns.
  unfoldable pub write_both :
      List Writer
      → List ℕ
      → List ℕ
      → Parrot k.Fifo
      → Adding
      → Adding
      → Parrot k.Fifo × Adding × Adding
  write_both [] a b p v w = (p, v, w)
  write_both (first ∷ turns) a b p v w =
      let (p', v') = add_step k p a v in write_both turns a b p' v' w
  write_both (second ∷ turns) a b p v w =
      let (p', w') = add_step k p b w in write_both turns a b p' v w'

-- Both pass the tests, both put their bytes in, both store the length, both advance.
abbrev side_by_side : List Writer
side_by_side =
    first ∷ first ∷ second ∷ second ∷ first ∷ second ∷ first ∷ second ∷ first ∷ second ∷ []

-- Over any FIFO with the documented laws, from a state that holds a box with room for two more messages
-- and their bytes: two writers that go side by side both report success, the bytes of both messages are
-- in the FIFO, and the index has gone on by two; but where the length of the first message belongs, the
-- table has that of the second, and the entry for the second is what it was.
side_by_side_mixes :
    (k : Kfifo) (p : Parrot k.Fifo) (box : Mailbox) (a b : List ℕ)
    → Holds k p box
    → length box.messages < 126
    → length (k.contents p.fifo) + length a + length b ≤ 1024
    → let (p', v, w) = write_both k side_by_side a b p testing_room testing_room in
      (v ≡ added (pos (length a)))
      × (w ≡ added (pos (length b)))
      × (k.contents p'.fifo ≡ k.contents p.fifo ++ a ++ b)
      × (p'.idx_wr ≡ (p.idx_wr + 2) % 128)
      × (get_or p'.msg_len p.idx_wr 0 ≡ length b)
      × (get_or p'.msg_len ((p.idx_wr + 1) % 128) 0 ≡ get_or p.msg_len ((p.idx_wr + 1) % 128) 0)
unfolding write_both add_step
side_by_side_mixes k p box a b h room fits =
    let f = (k.put p.fifo a).1 in
    let one = k.put_lem p.fifo a (omega arith) in
    let size : length (k.contents f) ≡ length (k.contents p.fifo) + length a =
      ap length one.1 ∙ length-append (k.contents p.fifo) a in
    let two = k.put_lem f b (omega (arith, size)) in
    let j = (p.idx_wr + 1) % 128 in
    let ne : p.idx_wr ≢ j = omega (arith, h.writer) in
    let once = set p.msg_len p.idx_wr (length a) in
    ground (
      arith,
      one,
      two,
      k.avail_lem p.fifo,
      k.avail_lem f,
      h.reader,
      h.writer,
      h.table,
      length-set p.msg_len p.idx_wr (length a),
      get_or-set_self once p.idx_wr (length b) 0,
      get_or-set_ne once p.idx_wr j (length b) 0 ne,
      get_or-set_ne p.msg_len p.idx_wr j (length a) 0 ne,
    )
