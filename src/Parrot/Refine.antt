-- ===== src/Parrot/Refine.antt =====
-- The parrot refines a mailbox: no sequence of calls tells the driver from the box of the messages
-- that it holds, as long as no message is empty and no copy to the user faults.
use l3_dd_trg.Base.{
  ℕ, ◌+◌, ◌%◌, ◌<◌, ◌≡◌, ◌≢◌, ◌∙◌, refl, ap, ap₂, sym, Bool-cases, inl, inr, Bool, false, List, [],
  ◌∷◌, ◌++◌, length, length-append, length-set, take-append, drop-append, append_assoc, append-nil,
  arith, if◌then◌else◌, get_or,
}
use l3_dd_trg.Base.Int.{pos}
use l3_dd_trg.Base.Bytes.{gather}
use l3_dd_trg.Parrot.{
  Parrot, parrot_device_open, parrot_device_close, parrot_device_read, sysfs_add_to_fifo,
  sysfs_reset,
}
use l3_dd_trg.Parrot.Kfifo.{Kfifo}
use l3_dd_trg.Parrot.Mailbox.{Mailbox, Op, Reply, open_for, close, read, add, reset}
use l3_dd_trg.Parrot.Mailbox
use l3_dd_trg.Parrot.Table.{Lengths, Lengths-snoc}

abbrev pub NoneEmpty : List (List ℕ) → Type 0
NoneEmpty [] = Unit
NoneEmpty (msg ∷ rest) = (0 < length msg) × NoneEmpty rest

pub gather-snoc :
    (msgs : List (List ℕ)) (new : List ℕ) → gather (msgs ++ new ∷ []) ≡ gather msgs ++ new
gather-snoc [] new = append-nil new
gather-snoc (msg ∷ rest) new =
    ap (λ r. msg ++ r) (gather-snoc rest new) ∙ sym (append_assoc msg (gather rest) new)

pub NoneEmpty-snoc :
    (msgs : List (List ℕ)) (new : List ℕ)
    → NoneEmpty msgs
    → 0 < length new
    → NoneEmpty (msgs ++ new ∷ [])
NoneEmpty-snoc [] new h p = (p, tt)
NoneEmpty-snoc (msg ∷ rest) new h p = (h.0, NoneEmpty-snoc rest new h.1 p)

gather-nonempty : (msg : List ℕ) (rest : List (List ℕ)) → 0 < length msg → gather (msg ∷ rest) ≢ []
gather-nonempty [] rest h = absurd (omega arith)
gather-nonempty (c ∷ msg) rest h = λ e. cc

-- The command that sets the `O_ACCMODE` bits of the flags.
abbrev flags_of : Bool → ℕ
flags_of writing = if writing then 1 else 0

-- No message that is put in is empty.
abbrev IsProper : Op → Type 0
IsProper (add msg) = 0 < length msg
IsProper _ = Unit

abbrev AllProper : List Op → Type 0
AllProper [] = Unit
AllProper (op ∷ ops) = IsProper op × AllProper ops

module _ (k : Kfifo) where
  -- The driver's state holds the box.
  pub record Holds (p : Parrot k.Fifo) (b : Mailbox) : Type 0 where
    pub bytes : k.contents p.fifo ≡ gather b.messages
    pub table : length p.msg_len ≡ 128
    pub reader : p.idx_rd < 128
    pub writer : p.idx_wr ≡ (p.idx_rd + length b.messages) % 128
    pub room : length b.messages < 128
    pub lengths : Lengths p.msg_len p.idx_rd b.messages
    pub nonempty : NoneEmpty b.messages
    pub seen : p.message_read ≡ b.seen
    pub taken : p.locked ≡ b.taken
    pub one_shot : p.one_shot ≡ b.one_shot

  -- One call of the driver, with what its caller sees.
  unfoldable pub step : Parrot k.Fifo → Op → Reply × Parrot k.Fifo
  step p (open_for writing) = let (r, p') = parrot_device_open p (flags_of writing) in ((r, []), p')
  step p close = let (r, p') = parrot_device_close p in ((r, []), p')
  step p (read n) = let (r, bytes, p') = parrot_device_read k p n false in ((r, bytes), p')
  step p (add msg) = let (r, p') = sysfs_add_to_fifo k p msg in ((r, []), p')
  step p (reset n) = let (r, p') = sysfs_reset k p n in ((r, []), p')

  unfoldable pub run : Parrot k.Fifo → List Op → List Reply
  run p [] = []
  run p (op ∷ ops) = let (r, p') = step p op in r ∷ run p' ops

  -- The two sides of a call agree.
  abbrev Agree : Reply × Parrot k.Fifo → Reply × Mailbox → Type 0
  Agree got want = (got.0 ≡ want.0) × Holds got.1 want.1

  -- A FIFO that holds a message is not empty.
  pub not-is_empty :
      (f : k.Fifo) (msg : List ℕ) (rest : List (List ℕ))
      → k.contents f ≡ gather (msg ∷ rest)
      → 0 < length msg
      → k.is_empty f ≡ false
  not-is_empty f msg rest e h = elim (Bool-cases (k.is_empty f)) [
    | inl yes_empty ↦ absurd (gather-nonempty msg rest h (sym e ∙ (k.is_empty_iff f).0 yes_empty))
    | inr filled ↦ filled
  ]

  -- The first message comes out of the FIFO whole, and leaves the others.
  pub to_user_first :
      (f : k.Fifo) (msg : List ℕ) (rest : List (List ℕ)) (n : ℕ)
      → k.contents f ≡ gather (msg ∷ rest)
      → n ≡ length msg
      → ((k.to_user f n false).0 ≡ n)
        × ((k.to_user f n false).1 ≡ msg)
        × (k.contents (k.to_user f n false).2 ≡ gather rest)
  to_user_first f msg rest n e en =
      let whole : length (k.contents f) ≡ length msg + length (gather rest) =
        ap length e ∙ length-append msg (gather rest) in
      let got = k.to_user_lem f n (omega (arith, whole, en)) in
      (
        got.0,
        got.1 ∙ rw (e, en) (take-append msg (gather rest)),
        got.2 ∙ rw (e, en) (drop-append msg (gather rest)),
      )

  read_refines :
      (p : Parrot k.Fifo) (msgs : List (List ℕ)) (seen taken one_shot : Bool) (n : ℕ)
      → let b : Mailbox = record {
        messages = msgs;
        seen = seen;
        taken = taken;
        one_shot = one_shot;
      } in
        Holds p b → Agree (step p (read n)) (Mailbox.step b (read n))
  unfolding step parrot_device_read Mailbox.step
  read_refines p [] seen taken one_shot n h = ground (arith, (k.is_empty_iff p.fifo).1 h.bytes)
  read_refines p (msg ∷ rest) seen taken one_shot n h = ground (
    arith,
    not-is_empty p.fifo msg rest h.bytes h.nonempty.0,
    to_user_first p.fifo msg rest (get_or p.msg_len p.idx_rd 0) h.bytes h.lengths.0,
  )

  add_refines :
      (p : Parrot k.Fifo) (b : Mailbox) (msg : List ℕ)
      → Holds p b
      → 0 < length msg
      → Agree (step p (add msg)) (Mailbox.step b (add msg))
  unfolding step sysfs_add_to_fifo Mailbox.step
  add_refines p b msg h pos_len = ground (
    arith,
    ap length h.bytes,
    k.bounded p.fifo,
    k.avail_lem p.fifo,
    k.put_lem p.fifo msg,
    length-set p.msg_len p.idx_wr (length msg),
    length-append b.messages (msg ∷ []),
    gather-snoc b.messages msg,
    Lengths-snoc p.msg_len p.idx_rd p.idx_wr b.messages msg,
    NoneEmpty-snoc b.messages msg h.nonempty pos_len,
  )

  -- One call on a state that holds a box: the caller sees what the box answers, and the new state
  -- holds the new box. A message that is put in is not empty.
  pub step_refines :
      (p : Parrot k.Fifo) (b : Mailbox) (op : Op)
      → Holds p b
      → IsProper op
      → Agree (step p op) (Mailbox.step b op)
  unfolding step Mailbox.step parrot_device_open parrot_device_close sysfs_reset
  step_refines p b (open_for writing) h o = ground arith
  step_refines p b close h o = ground arith
  step_refines p b (read n) h o = read_refines p b.messages b.seen b.taken b.one_shot n h
  step_refines p b (add msg) h o = add_refines p b msg h o
  step_refines p b (reset n) h o = ground (arith, k.reset_lem p.fifo)

  -- Any sequence of calls, none of which puts in an empty message and no copy of which to the user
  -- faults: each caller sees what the mailbox answers.
  pub run_refines :
      (ops : List Op) (p : Parrot k.Fifo) (b : Mailbox)
      → Holds p b
      → AllProper ops
      → run p ops ≡ Mailbox.run b ops
  unfolding run Mailbox.run
  run_refines [] p b h o = refl
  run_refines (op ∷ ops) p b h o =
      let agree = step_refines p b op h o.0 in
      ap₂ ◌∷◌ agree.0 (run_refines ops (step p op).1 (Mailbox.step b op).1 agree.1 o.1)

  -- A message comes out whole even where the reader asks for fewer bytes: the call copies, and
  -- returns, more than it was asked for.
  pub read_ignores_length :
      (p : Parrot k.Fifo) (msg : List ℕ) (rest : List (List ℕ)) (b : Mailbox) (n : ℕ)
      → Holds p b
      → b.messages ≡ msg ∷ rest
      → b.seen ≡ false
      → n < length msg
      → let (r, bytes, p') = parrot_device_read k p n false in
        (r ≡ pos (length bytes)) × (bytes ≡ msg) × (n < length bytes)
  unfolding parrot_device_read
  read_ignores_length p msg rest b n h e s lt =
      let bytes = h.bytes ∙ ap gather e in
      let first : get_or p.msg_len p.idx_rd 0 ≡ length msg = (rw e at (h.lengths)).0 in
      ground (
        arith,
        not-is_empty p.fifo msg rest bytes (omega arith),
        to_user_first p.fifo msg rest (get_or p.msg_len p.idx_rd 0) bytes first,
      )
