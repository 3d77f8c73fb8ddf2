-- ===== src/Parrot/Race/Early.antt =====
-- A read that comes between the two writes of an add, into the FIFO and into the table, on a parrot
-- that holds no message.
use l3_dd_trg.Base.{
  ℕ, ◌≤◌, ◌<◌, ◌≡◌, ◌∙◌, append-nil, ap, sym, false, List, [], ◌∷◌, ◌++◌, ◌&&◌, length, get_or,
  take, drop, arith,
}
use l3_dd_trg.Base.Int.{pos}
use l3_dd_trg.Parrot.{Parrot}
use l3_dd_trg.Parrot.Kfifo.{Kfifo}
use l3_dd_trg.Parrot.Mailbox.{Mailbox}
use l3_dd_trg.Parrot.Refine.{Holds, not-is_empty}
use l3_dd_trg.Parrot.Race.{
  Turn, reader, writer, testing_room, added, asking, finished, add_step, read_step, race,
}

-- The writer has put the bytes in, not yet stored their number; the reader goes through; the writer
-- goes on.
abbrev pub early : List Turn
early = writer ∷ writer ∷ writer ∷ reader ∷ reader ∷ reader ∷ writer ∷ writer ∷ []

-- Over any FIFO with the documented laws, from a state that holds an empty box of which a read may
-- still give a message: if the new message has at most 1024 bytes, the old number in the table is
-- less than its length, and a read comes after the message's bytes are put in and before its
-- length is stored, then the read returns the old number, with only so many bytes of the message;
-- the add succeeds; the rest of the bytes stay in the FIFO, and the indices count no message.
pub early_read_cuts :
    (k : Kfifo) (p : Parrot k.Fifo) (b : Mailbox) (new : List ℕ)
    → Holds k p b
    → b.messages ≡ []
    → (b.one_shot && b.seen) ≡ false
    → length new ≤ 1024
    → get_or p.msg_len p.idx_rd 0 < length new
    → let stale = get_or p.msg_len p.idx_rd 0 in
      let (p', w', r') = race k early new p testing_room asking in
      (r' ≡ finished (pos stale) (take stale new))
      × (w' ≡ added (pos (length new)))
      × (k.contents p'.fifo ≡ drop stale new)
      × (p'.idx_rd ≡ p'.idx_wr)
unfolding race add_step read_step
early_read_cuts k p b new h empty unseen fits short =
    let none_in : k.contents p.fifo ≡ [] = rw empty at (h.bytes) in
    let f = (k.put p.fifo new).1 in
    let came = k.put_lem p.fifo new (omega (arith, ap length none_in)) in
    let only : k.contents f ≡ new = came.1 ∙ ap (λ c. c ++ new) none_in in
    let full : k.is_empty f ≡ false =
      not-is_empty k f new [] (only ∙ sym (append-nil new)) (omega arith) in
    let got = k.to_user_lem f (get_or p.msg_len p.idx_rd 0) (omega (arith, ap length only)) in
    ground (
      arith,
      full,
      got,
      only,
      came,
      k.avail_lem p.fifo,
      ap length none_in,
      h.reader,
      h.writer,
      h.one_shot,
      h.seen,
    )
