-- ===== src/Parrot/Race/Between.antt =====
-- What holds of the parrot's variables, and of what each thread knows, while one writer and one reader
-- run at once on a parrot which holds a message.
use l3_dd_trg.Base.{
  ℕ, ◌+◌, ◌-◌, ◌%◌, ◌≤◌, ◌<◌, ◌≡◌, ◌⊎◌, inl, inr, refl, Bool, true, false, List, [], ◌∷◌, ◌++◌,
  ◌&&◌, length, length-append, arith,
}
use l3_dd_trg.Base.Int.{pos, enospc}
use l3_dd_trg.Base.Bytes.{gather}
use l3_dd_trg.Parrot.{Parrot}
use l3_dd_trg.Parrot.Kfifo.{Kfifo}
use l3_dd_trg.Parrot.Mailbox.{Mailbox}
use l3_dd_trg.Parrot.Table.{Lengths}
use l3_dd_trg.Parrot.Race.{
  Adding, testing_room, testing_table, putting, storing, advancing, added, Reading, asking, copying,
  counting, finished, Turn, reader, writer, add_step, read_step,
}

-- How many turns of each thread there are.
abbrev pub writer_turns : List Turn → ℕ
writer_turns [] = 0
writer_turns (writer ∷ turns) = 1 + writer_turns turns
writer_turns (reader ∷ turns) = writer_turns turns

abbrev pub reader_turns : List Turn → ℕ
reader_turns [] = 0
reader_turns (writer ∷ turns) = reader_turns turns
reader_turns (reader ∷ turns) = 1 + reader_turns turns

-- The steps that a thread still has to make, at most.
abbrev pub adds_left : Adding → ℕ
adds_left testing_room = 5
adds_left testing_table = 4
adds_left putting = 3
adds_left (storing c) = 2
adds_left (advancing c) = 1
adds_left (added r) = 0

abbrev pub reads_left : Reading → ℕ
reads_left asking = 3
reads_left copying = 2
reads_left (counting r bytes) = 1
reads_left (finished r bytes) = 0

-- What of the message that waits is in the FIFO, and where the reader's index stands.
abbrev pub head : Reading → List ℕ → List ℕ
head asking front = front
head copying front = front
head (counting r bytes) front = []
head (finished r bytes) front = []

abbrev read_index : Reading → ℕ → ℕ
read_index (finished r bytes) i = (i + 1) % 128
read_index _ i = i

abbrev seen_by : Reading → Bool → Bool
seen_by (finished r bytes) before = true
seen_by _ before = before

-- The part of the new message that is in the FIFO.
abbrev pub tail : Adding → List ℕ → List ℕ
tail (storing c) new = new
tail (advancing c) new = new
tail (added (pos c)) new = new
tail _ new = []

abbrev pub write_index : Adding → ℕ → ℕ
write_index (added (pos c)) j = (j + 1) % 128
write_index _ j = j

length-append₂ : (xs ys zs : List ℕ) → length (xs ++ ys ++ zs) ≡ length xs + length ys + length zs
length-append₂ xs ys zs = omega (arith, length-append (xs ++ ys) zs, length-append xs ys)

pub head-le : (r : Reading) (front : List ℕ) → length (head r front) ≤ length front
head-le asking front = omega arith
head-le copying front = omega arith
head-le (counting z bytes) front = omega arith
head-le (finished z bytes) front = omega arith

-- The reader's index has moved by one at most.
pub read_index-near :
    (r : Reading) (i : ℕ) → (read_index r i ≡ i) ⊎ (read_index r i ≡ (i + 1) % 128)
read_index-near asking i = inl refl
read_index-near copying i = inl refl
read_index-near (counting z bytes) i = inl refl
read_index-near (finished z bytes) i = inr refl

pub Lengths-prefix :
    (table : List ℕ) (i : ℕ) (msgs : List (List ℕ)) (new : List ℕ)
    → Lengths table i (msgs ++ new ∷ [])
    → Lengths table i msgs
Lengths-prefix table i [] new h = tt
Lengths-prefix table i (msg ∷ rest) new h = (h.0, Lengths-prefix table ((i + 1) % 128) rest new h.1)

module _ (k : Kfifo) where
  pub room_cases :
      (p : Parrot k.Fifo) (buf : List ℕ)
      → ((k.avail p.fifo < length buf) × (add_step k p buf testing_room ≡ (p, added enospc)))
        ⊎ ((length buf ≤ k.avail p.fifo) × (add_step k p buf testing_room ≡ (p, testing_table)))
  unfolding add_step
  room_cases p buf = ground arith

  pub table_cases :
      (p : Parrot k.Fifo) (buf : List ℕ)
      → (((p.idx_wr + 1) % 128 ≡ p.idx_rd) × (add_step k p buf testing_table ≡ (p, added enospc)))
        ⊎ (add_step k p buf testing_table ≡ (p, putting))
  unfolding add_step
  table_cases p buf = ground arith

module _ (k : Kfifo) where
  -- A turn is one step less to make.
  pub add_step-left :
      (p : Parrot k.Fifo) (buf : List ℕ) (w : Adding)
      → adds_left (add_step k p buf w).1 ≤ adds_left w - 1
  unfolding add_step
  add_step-left p buf testing_room = ground arith
  add_step-left p buf testing_table = ground arith
  add_step-left p buf putting = omega arith
  add_step-left p buf (storing c) = omega arith
  add_step-left p buf (advancing c) = omega arith
  add_step-left p buf (added z) = omega arith

  pub read_step-left :
      (p : Parrot k.Fifo) (r : Reading) → reads_left (read_step k p false r).1 ≤ reads_left r - 1
  unfolding read_step
  read_step-left p asking = ground arith
  read_step-left p copying = omega arith
  read_step-left p (counting z bytes) = omega arith
  read_step-left p (finished z bytes) = omega arith

  pub asking_step :
      (p : Parrot k.Fifo)
      → (p.one_shot && p.message_read) ≡ false
      → k.is_empty p.fifo ≡ false
      → read_step k p false asking ≡ (p, copying)
  unfolding read_step
  asking_step p h e = ground arith

module _ (k : Kfifo) (front new : List ℕ) (rest : List (List ℕ)) (i : ℕ) where
  -- What the reader has by now.
  abbrev pub ReadOk : Reading → Type 0
  ReadOk (counting r bytes) = (r ≡ pos (length front)) × (bytes ≡ front)
  ReadOk (finished r bytes) = (r ≡ pos (length front)) × (bytes ≡ front)
  ReadOk _ = Unit

  -- The new message has room where the one at the front has left.
  abbrev pub Fits : Type 0
  Fits = length (gather rest) + length new ≤ 1024

  abbrev pub Stored : List ℕ → Type 0
  Stored table = Lengths table i (front ∷ rest ++ new ∷ [])

  -- What the writer knows by now.
  abbrev pub AddOk : Parrot k.Fifo → Adding → Type 0
  AddOk p testing_room = Unit
  AddOk p testing_table = Fits × (length (k.contents p.fifo) + length new ≤ 1024)
  AddOk p putting = Fits × (length (k.contents p.fifo) + length new ≤ 1024)
  AddOk p (storing c) = Fits × (c ≡ length new)
  AddOk p (advancing c) = Fits × (c ≡ length new) × Stored p.msg_len
  AddOk p (added r) =
      (Fits × (r ≡ pos (length new)) × Stored p.msg_len)
      ⊎ ((r ≡ enospc)
          × ((1024 < length (gather (front ∷ rest)) + length new) ⊎ (127 ≤ length (front ∷ rest))))

  -- What holds of the variables while the two threads run, if `b` was there before.
  pub record Between (b : Mailbox) (p : Parrot k.Fifo) (w : Adding) (r : Reading) : Type 0 where
    pub bytes : k.contents p.fifo ≡ head r front ++ gather rest ++ tail w new
    pub table : length p.msg_len ≡ 128
    pub reader : p.idx_rd ≡ read_index r i
    pub writer : p.idx_wr ≡ write_index w ((i + length (front ∷ rest)) % 128)
    pub lengths : Lengths p.msg_len i (front ∷ rest)
    pub seen : p.message_read ≡ seen_by r b.seen
    pub taken : p.locked ≡ b.taken
    pub one_shot : p.one_shot ≡ b.one_shot
    pub read_ok : ReadOk r
    pub add_ok : AddOk p w

  -- What the writer knows stays true when the reader takes bytes out, and when it counts a message.
  pub AddOk-drained :
      (p : Parrot k.Fifo) (f : k.Fifo) (w : Adding)
      → length (k.contents f) ≤ length (k.contents p.fifo)
      → AddOk p w
      → AddOk (record p { fifo = f }) w
  AddOk-drained p f testing_room le h = tt
  AddOk-drained p f testing_table le h = (h.0, omega (arith, h.1))
  AddOk-drained p f putting le h = (h.0, omega (arith, h.1))
  AddOk-drained p f (storing c) le h = h
  AddOk-drained p f (advancing c) le h = h
  AddOk-drained p f (added z) le h = h

  pub AddOk-counted :
      (p : Parrot k.Fifo) (j : ℕ) (w : Adding)
      → AddOk p w
      → AddOk (record p { idx_rd = j; message_read = true }) w
  AddOk-counted p j testing_room h = tt
  AddOk-counted p j testing_table h = h
  AddOk-counted p j putting h = h
  AddOk-counted p j (storing c) h = h
  AddOk-counted p j (advancing c) h = h
  AddOk-counted p j (added z) h = h
