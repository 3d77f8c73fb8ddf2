-- ===== src/Parrot/Race/Writer.antt =====
-- Every step of the writer keeps what holds between it and the reader.
use l3_dd_trg.Base.{
  ℕ, ◌+◌, ◌%◌, ◌<◌, ◌≡◌, ◌∙◌, inl, inr, refl, ap, List, ◌∷◌, ◌++◌, length, length-append,
  length-set, append-nil, set, arith,
}
use l3_dd_trg.Base.Int.{pos, enospc}
use l3_dd_trg.Base.Bytes.{gather}
use l3_dd_trg.Parrot.{Parrot}
use l3_dd_trg.Parrot.Kfifo.{Kfifo}
use l3_dd_trg.Parrot.Mailbox.{Mailbox}
use l3_dd_trg.Parrot.Table.{Lengths-snoc_of}
use l3_dd_trg.Parrot.Race.{
  Adding, testing_room, testing_table, putting, storing, advancing, added, Reading, add_step,
}
use l3_dd_trg.Parrot.Race.Between.{
  head, tail, write_index, head-le, read_index-near, Lengths-prefix, room_cases, table_cases,
  Between, AddOk, Stored,
}

module _ (k : Kfifo) (front new : List ℕ) (rest : List (List ℕ)) (i : ℕ) (b : Mailbox)
    (small : i < 128) (room : length (front ∷ rest) < 128) where
  abbrev During : Parrot k.Fifo → Adding → Reading → Type 0
  During = Between k front new rest i b

  -- A step of the writer that changes no variable.
  moved :
      (p : Parrot k.Fifo) (w w' : Adding) (r : Reading)
      → tail w' new ≡ tail w new
      → ((j : ℕ) → write_index w' j ≡ write_index w j)
      → AddOk k front new rest i p w'
      → During p w r
      → During p w' r
  moved p w w' r e f ok h = record {
    bytes = rw e (h.bytes);
    table = h.table;
    reader = h.reader;
    writer = rw (f ((i + length (front ∷ rest)) % 128)) (h.writer);
    lengths = h.lengths;
    seen = h.seen;
    taken = h.taken;
    one_shot = h.one_shot;
    read_ok = h.read_ok;
    add_ok = ok;
  }

  testing_room-Between :
      (p : Parrot k.Fifo) (r : Reading)
      → During p testing_room r
      → During (add_step k p new testing_room).0 (add_step k p new testing_room).1 r
  testing_room-Between p r h =
      let size : length (k.contents p.fifo) ≡ length (head r front) + length (gather rest) =
        ap length (h.bytes ∙ append-nil (head r front ++ gather rest))
        ∙ length-append (head r front) (gather rest) in
      elim (room_cases k p new) [
        | inl (lt, e) ↦ rw e (
            moved p testing_room (added enospc) r refl (λ j. refl)
              (inr (
                refl,
                inl (
                    omega (
                      arith,
                      k.avail_lem p.fifo,
                      size,
                      head-le r front,
                      length-append front (gather rest),
                    )),
              ))
              h)
        | inr (le, e) ↦ rw e (
            moved p testing_room testing_table r refl (λ j. refl)
              (
                omega (arith, k.avail_lem p.fifo, k.bounded p.fifo, size),
                omega (arith, k.bounded p.fifo, k.avail_lem p.fifo),
              )
              h)
      ]

  testing_table-Between :
      (p : Parrot k.Fifo) (r : Reading)
      → During p testing_table r
      → During (add_step k p new testing_table).0 (add_step k p new testing_table).1 r
  testing_table-Between p r h = elim (table_cases k p new) [
    | inl (is, e) ↦ rw e (
        moved p testing_table (added enospc) r refl (λ j. refl)
          (inr (refl, inr (omega (arith, h.reader, h.writer, read_index-near r i)))) h)
    | inr e ↦ rw e (moved p testing_table putting r refl (λ j. refl) (h.add_ok) h)
  ]

  putting-Between :
      (p : Parrot k.Fifo) (r : Reading)
      → During p putting r
      → During (add_step k p new putting).0 (add_step k p new putting).1 r
  unfolding add_step
  putting-Between p r h =
      let copied = k.put_lem p.fifo new h.add_ok.1 in
      record {
        bytes = copied.1 ∙ ap (λ f. f ++ new) (h.bytes ∙ append-nil (head r front ++ gather rest));
        table = h.table;
        reader = h.reader;
        writer = h.writer;
        lengths = h.lengths;
        seen = h.seen;
        taken = h.taken;
        one_shot = h.one_shot;
        read_ok = h.read_ok;
        add_ok = (h.add_ok.0, copied.0);
      }

  storing-Between :
      (p : Parrot k.Fifo) (c : ℕ) (r : Reading)
      → During p (storing c) r
      → During (add_step k p new (storing c)).0 (add_step k p new (storing c)).1 r
  unfolding add_step
  storing-Between p c r h =
      let stored : Stored k front new rest i (set p.msg_len p.idx_wr c) =
        Lengths-snoc_of p.msg_len i p.idx_wr (front ∷ rest) new c h.table small room h.writer
          h.lengths (h.add_ok.1) in
      record {
        bytes = h.bytes;
        table = length-set p.msg_len p.idx_wr c ∙ h.table;
        reader = h.reader;
        writer = h.writer;
        lengths = Lengths-prefix (set p.msg_len p.idx_wr c) i (front ∷ rest) new stored;
        seen = h.seen;
        taken = h.taken;
        one_shot = h.one_shot;
        read_ok = h.read_ok;
        add_ok = (h.add_ok.0, h.add_ok.1, stored);
      }

  advancing-Between :
      (p : Parrot k.Fifo) (c : ℕ) (r : Reading)
      → During p (advancing c) r
      → During (add_step k p new (advancing c)).0 (add_step k p new (advancing c)).1 r
  unfolding add_step
  advancing-Between p c r h = record {
    bytes = h.bytes;
    table = h.table;
    reader = h.reader;
    writer = ap (λ j. (j + 1) % 128) h.writer;
    lengths = h.lengths;
    seen = h.seen;
    taken = h.taken;
    one_shot = h.one_shot;
    read_ok = h.read_ok;
    add_ok = inl (h.add_ok.0, ap pos h.add_ok.1, h.add_ok.2);
  }

  -- A step of the writer, wherever it stands.
  pub add_step-Between :
      (p : Parrot k.Fifo) (w : Adding) (r : Reading)
      → During p w r
      → During (add_step k p new w).0 (add_step k p new w).1 r
  unfolding add_step
  add_step-Between p testing_room r h = testing_room-Between p r h
  add_step-Between p testing_table r h = testing_table-Between p r h
  add_step-Between p putting r h = putting-Between p r h
  add_step-Between p (storing c) r h = storing-Between p c r h
  add_step-Between p (advancing c) r h = advancing-Between p c r h
  add_step-Between p (added z) r h = h
