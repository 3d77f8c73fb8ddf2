-- ===== src/Parrot/Race/Order.antt =====
-- A read and an add that overlap on a parrot which holds a message take effect in one order or the
-- other.
use l3_dd_trg.Base.{
  ℕ, ◌+◌, ◌≤◌, ◌<◌, ◌≡◌, ap₂, ◌∙◌, ◌⊎◌, inl, inr, refl, ap, sym, Bool, true, false, List, [], ◌∷◌,
  ◌++◌, ◌&&◌, length, length-append, append-nil, arith,
}
use l3_dd_trg.Base.Int.{ℤ, pos, enospc}
use l3_dd_trg.Base.Bytes.{gather}
use l3_dd_trg.Parrot.{Parrot}
use l3_dd_trg.Parrot.Kfifo.{Kfifo}
use l3_dd_trg.Parrot.Mailbox.{Mailbox, Reply, read, add, take_one}
use l3_dd_trg.Parrot.Mailbox
use l3_dd_trg.Parrot.Refine.{Holds, NoneEmpty, NoneEmpty-snoc, gather-snoc}
use l3_dd_trg.Parrot.Race.{
  Adding, testing_room, testing_table, putting, storing, advancing, added, Reading, asking, copying,
  counting, finished, Turn, race,
}
use l3_dd_trg.Parrot.Race.Between.{
  writer_turns, reader_turns, adds_left, reads_left, Between, Stored,
}
use l3_dd_trg.Parrot.Race.Steps.{race-Between}

-- The replies of a read and of an add that come one after the other, in either order, and the box
-- that they leave.
abbrev pub read_then_add : Mailbox → ℕ → List ℕ → Reply × Reply × Mailbox
read_then_add b n new =
    let (got, b1) = Mailbox.step b (read n) in
    let (put, b2) = Mailbox.step b1 (add new) in (got, put, b2)

abbrev pub add_then_read : Mailbox → ℕ → List ℕ → Reply × Reply × Mailbox
add_then_read b n new =
    let (put, b1) = Mailbox.step b (add new) in
    let (got, b2) = Mailbox.step b1 (read n) in (got, put, b2)

-- What the driver did is what a box answers.
abbrev pub Did : (k : Kfifo) → Parrot k.Fifo × Adding × Reading → Reply × Reply × Mailbox → Type 0
Did k (p, w, r) (got, put, b) = (r ≡ finished got.0 got.1) × (w ≡ added put.0) × Holds k p b

Did-rw :
    (k : Kfifo) (end : Parrot k.Fifo × Adding × Reading) (a b : Reply × Reply × Mailbox)
    → a ≡ b
    → Did k end b
    → Did k end a
Did-rw k end a b e d = rw e d

module _ (front new : List ℕ) (rest : List (List ℕ)) (seen taken one_shot : Bool)
    (unseen : (one_shot && seen) ≡ false) where
  abbrev before : Mailbox
  before = record { messages = front ∷ rest; seen = seen; taken = taken; one_shot = one_shot }

  -- The box after the read, and after the read and the add.
  abbrev read_out : Mailbox
  read_out = record { messages = rest; seen = true; taken = taken; one_shot = one_shot }

  abbrev after : Mailbox
  after = record { messages = rest ++ new ∷ []; seen = true; taken = taken; one_shot = one_shot }

  read_then_add_fits :
      (n : ℕ)
      → length (gather rest) + length new ≤ 1024
      → length rest < 127
      → read_then_add before n new ≡ ((pos (length front), front), (pos (length new), []), after)
  unfolding Mailbox.step take_one
  read_then_add_fits n h l = ground arith

  add_then_read_full :
      (n : ℕ)
      → (1024 < length (gather (front ∷ rest)) + length new) ⊎ (127 ≤ length (front ∷ rest))
      → add_then_read before n new ≡ ((pos (length front), front), (enospc, []), read_out)
  unfolding Mailbox.step take_one
  add_then_read_full n h = ground arith

  module _ (k : Kfifo) (i : ℕ) (small : i < 128) (room : length (front ∷ rest) < 128)
      (full : 0 < length new) (others : NoneEmpty rest) where
    abbrev Done : Parrot k.Fifo → ℤ → Reading → Type 0
    Done p z r = Between k front new rest i before p (added z) r

    -- The message came in.
    both :
        (p : Parrot k.Fifo) (y : ℤ) (bytes : List ℕ)
        → Stored k front new rest i p.msg_len
        → Done p (pos (length new)) (finished y bytes)
        → Holds k p after
    both p y bytes stored h = record {
      bytes = h.bytes ∙ sym (gather-snoc rest new);
      table = h.table;
      reader = omega (arith, h.reader);
      writer = omega (arith, h.writer, h.reader, length-append rest (new ∷ []));
      room = omega (arith, length-append rest (new ∷ []));
      lengths = rw (h.reader) (stored.1);
      nonempty = NoneEmpty-snoc rest new others full;
      seen = h.seen;
      taken = h.taken;
      one_shot = h.one_shot;
    }

    -- The message was refused.
    one :
        (p : Parrot k.Fifo) (y : ℤ) (bytes : List ℕ)
        → Done p enospc (finished y bytes)
        → Holds k p read_out
    one p y bytes h = record {
      bytes = h.bytes ∙ append-nil (gather rest);
      table = h.table;
      reader = omega (arith, h.reader);
      writer = omega (arith, h.writer, h.reader);
      room = omega arith;
      lengths = rw (h.reader) (h.lengths.1);
      nonempty = others;
      seen = h.seen;
      taken = h.taken;
      one_shot = h.one_shot;
    }

    Done-rw :
        (p : Parrot k.Fifo) (a z y : ℤ) (bytes : List ℕ)
        → a ≡ z
        → Done p a (finished y bytes)
        → Done p z (finished y bytes)
    Done-rw p a z y bytes e h = rw (sym e) h

    -- Where both threads have no step left, one order explains them.
    ended :
        (n : ℕ) (p : Parrot k.Fifo) (z : ℤ) (y : ℤ) (bytes : List ℕ)
        → Done p z (finished y bytes)
        → Did k (p, added z, finished y bytes) (read_then_add before n new)
          ⊎ Did k (p, added z, finished y bytes) (add_then_read before n new)
    ended n p z y bytes h =
        let reads = ap₂ finished h.read_ok.0 h.read_ok.1 in
        elim h.add_ok [
          | inl (fits, e, stored) ↦ inl (
              Did-rw k _ _ _ (read_then_add_fits n fits (omega arith))
                (reads, ap added e, both p y bytes stored (Done-rw p _ _ y bytes e h)))
          | inr (e, cause) ↦ inr (
              Did-rw k _ _ _ (add_then_read_full n cause)
                (reads, ap added e, one p y bytes (Done-rw p _ _ y bytes e h)))
        ]

    explained :
        (n : ℕ) (p : Parrot k.Fifo) (w : Adding) (r : Reading)
        → adds_left w ≤ 0
        → reads_left r ≤ 0
        → Between k front new rest i before p w r
        → Did k (p, w, r) (read_then_add before n new)
          ⊎ Did k (p, w, r) (add_then_read before n new)
    explained n p (added z) (finished y bytes) a c h = ended n p z y bytes h
    explained n p testing_room r a c h = absurd (omega arith)
    explained n p testing_table r a c h = absurd (omega arith)
    explained n p putting r a c h = absurd (omega arith)
    explained n p (storing d) r a c h = absurd (omega arith)
    explained n p (advancing d) r a c h = absurd (omega arith)
    explained n p w asking a c h = absurd (omega arith)
    explained n p w copying a c h = absurd (omega arith)
    explained n p w (counting y bytes) a c h = absurd (omega arith)

-- A parrot over any FIFO with the documented laws holds a box with a message in it, the new message
-- is not empty, and a read may still give a message. A read and an add whose steps come in any order,
-- at least five turns of the writer and three of the reader, both return, and the replies and the box
-- that is held then are those of the read and then the add, or of the add and then the read.
pub race_in_order :
    (k : Kfifo) (turns : List Turn) (p : Parrot k.Fifo) (front new : List ℕ) (rest : List (List ℕ))
    (seen taken one_shot : Bool) (n : ℕ)
    → let b : Mailbox = record {
      messages = front ∷ rest;
      seen = seen;
      taken = taken;
      one_shot = one_shot;
    } in
      Holds k p b
      → (one_shot && seen) ≡ false
      → 0 < length new
      → 5 ≤ writer_turns turns
      → 3 ≤ reader_turns turns
      → Did k (race k turns new p testing_room asking) (read_then_add b n new)
        ⊎ Did k (race k turns new p testing_room asking) (add_then_read b n new)
race_in_order k turns p front new rest seen taken one_shot n h unseen full ws rs =
    let start : Between k front new rest p.idx_rd (before front new rest seen taken one_shot unseen)
        p testing_room asking =
      record {
        bytes = h.bytes ∙ sym (append-nil (front ++ gather rest));
        table = h.table;
        reader = refl;
        writer = h.writer;
        lengths = h.lengths;
        seen = h.seen;
        taken = h.taken;
        one_shot = h.one_shot;
        read_ok = tt;
        add_ok = tt;
      } in
    let (between, a, c) =
      race-Between k front new rest p.idx_rd (before front new rest seen taken one_shot unseen)
        h.reader h.room unseen h.nonempty.0 turns p testing_room asking start in
    let (p', w', r') = race k turns new p testing_room asking in
    explained front new rest seen taken one_shot unseen k p.idx_rd h.reader h.room full h.nonempty.1
      n p' w' r' (omega (arith, a)) (omega (arith, c)) between
