-- ===== src/Parrot/Race/Steps.antt =====
-- Every step of the reader keeps what holds between it and the writer, and so do any turns of both.
use l3_dd_trg.Base.{
  ℕ, ◌+◌, ◌-◌, ◌%◌, ◌≤◌, ◌<◌, ◌≡◌, ◌∙◌, refl, ap, sym, false, List, [], ◌∷◌, ◌++◌, ◌&&◌, length,
  length-append, append_assoc, append-nil, get_or, arith,
}
use l3_dd_trg.Base.Int.{ℤ, pos}
use l3_dd_trg.Base.Bytes.{gather}
use l3_dd_trg.Parrot.{Parrot}
use l3_dd_trg.Parrot.Kfifo.{Kfifo}
use l3_dd_trg.Parrot.Mailbox.{Mailbox}
use l3_dd_trg.Parrot.Refine.{to_user_first, not-is_empty}
use l3_dd_trg.Parrot.Race.{
  Adding, Reading, asking, copying, counting, finished, Turn, reader, writer, add_step, read_step,
  race,
}
use l3_dd_trg.Parrot.Race.Between.{
  writer_turns, reader_turns, adds_left, reads_left, head, tail, add_step-left, read_step-left,
  asking_step, Between, AddOk-drained, AddOk-counted,
}
use l3_dd_trg.Parrot.Race.Writer.{add_step-Between}

module _ (k : Kfifo) (front new : List ℕ) (rest : List (List ℕ)) (i : ℕ) (b : Mailbox)
    (small : i < 128) (room : length (front ∷ rest) < 128) (unseen : (b.one_shot && b.seen) ≡ false)
    (full : 0 < length front) where
  abbrev During : Parrot k.Fifo → Adding → Reading → Type 0
  During = Between k front new rest i b

  -- The message at the front, and the rest of the FIFO as another.
  front_first :
      (p : Parrot k.Fifo) (w : Adding) (r : Reading)
      → head r front ≡ front
      → During p w r
      → k.contents p.fifo ≡ gather (front ∷ (gather rest ++ tail w new) ∷ [])
  front_first p w r e h =
      (rw e at (h.bytes))
      ∙ append_assoc front (gather rest) (tail w new)
      ∙ ap (λ f. front ++ f) (sym (append-nil (gather rest ++ tail w new)))

  asking-Between :
      (p : Parrot k.Fifo) (w : Adding)
      → During p w asking
      → During (read_step k p false asking).0 w (read_step k p false asking).1
  asking-Between p w h =
      let filled =
        not-is_empty k p.fifo front ((gather rest ++ tail w new) ∷ [])
          (front_first p w asking refl h) full in
      let unread : (p.one_shot && p.message_read) ≡ false = rw (h.one_shot, h.seen) unseen in
      rw (asking_step k p unread filled) (record {
        bytes = h.bytes;
        table = h.table;
        reader = h.reader;
        writer = h.writer;
        lengths = h.lengths;
        seen = h.seen;
        taken = h.taken;
        one_shot = h.one_shot;
        read_ok = tt;
        add_ok = h.add_ok;
      })

  copying-Between :
      (p : Parrot k.Fifo) (w : Adding)
      → During p w copying
      → During (read_step k p false copying).0 w (read_step k p false copying).1
  unfolding read_step
  copying-Between p w h =
      let n = get_or p.msg_len p.idx_rd 0 in
      let right : n ≡ length front = ap (λ j. get_or p.msg_len j 0) h.reader ∙ h.lengths.0 in
      let got =
        to_user_first k p.fifo front ((gather rest ++ tail w new) ∷ []) n
          (front_first p w copying refl h) right in
      let left = got.2 ∙ append-nil (gather rest ++ tail w new) in
      let whole =
        ap length (front_first p w copying refl h)
        ∙ length-append front (gather rest ++ tail w new ++ []) in
      record {
        bytes = left;
        table = h.table;
        reader = h.reader;
        writer = h.writer;
        lengths = h.lengths;
        seen = h.seen;
        taken = h.taken;
        one_shot = h.one_shot;
        read_ok = (ap pos (got.0 ∙ right), got.1);
        add_ok =
            AddOk-drained k front new rest i p (k.to_user p.fifo n false).2 w
              (omega (arith, whole, ap length got.2)) h.add_ok;
      }

  counting-Between :
      (p : Parrot k.Fifo) (w : Adding) (z : ℤ) (bytes : List ℕ)
      → During p w (counting z bytes)
      → During
          (read_step k p false (counting z bytes)).0
          w
          (read_step k p false (counting z bytes)).1
  unfolding read_step
  counting-Between p w z bytes h = record {
    bytes = h.bytes;
    table = h.table;
    reader = ap (λ j. (j + 1) % 128) h.reader;
    writer = h.writer;
    lengths = h.lengths;
    seen = refl;
    taken = h.taken;
    one_shot = h.one_shot;
    read_ok = h.read_ok;
    add_ok = AddOk-counted k front new rest i p ((p.idx_rd + 1) % 128) w h.add_ok;
  }

  -- A step of the reader, wherever it stands.
  read_step-Between :
      (p : Parrot k.Fifo) (w : Adding) (r : Reading)
      → During p w r
      → During (read_step k p false r).0 w (read_step k p false r).1
  unfolding read_step
  read_step-Between p w asking h = asking-Between p w h
  read_step-Between p w copying h = copying-Between p w h
  read_step-Between p w (counting z bytes) h = counting-Between p w z bytes h
  read_step-Between p w (finished z bytes) h = h

  -- Any turns of the two threads.
  pub race-Between :
      (turns : List Turn) (p : Parrot k.Fifo) (w : Adding) (r : Reading)
      → During p w r
      → let (p', w', r') = race k turns new p w r in
        During p' w' r'
        × (adds_left w' ≤ adds_left w - writer_turns turns)
        × (reads_left r' ≤ reads_left r - reader_turns turns)
  unfolding race
  race-Between [] p w r h = (h, omega arith, omega arith)
  race-Between (writer ∷ turns) p w r h =
      let (p', w') = add_step k p new w in
      let (h', a, c) =
        race-Between turns p' w' r (add_step-Between k front new rest i b small room p w r h) in
      (h', omega (arith, a, add_step-left k p new w), c)
  race-Between (reader ∷ turns) p w r h =
      let (p', r') = read_step k p false r in
      let (h', a, c) = race-Between turns p' w r' (read_step-Between p w r h) in
      (h', a, omega (arith, c, read_step-left k p r))
