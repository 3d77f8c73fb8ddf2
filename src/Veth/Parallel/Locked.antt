-- ===== src/Veth/Parallel/Locked.antt =====
-- What holds while several senders run: one is behind the lock, and what it loaded is what is there.
use l3_dd_trg.Base.{
  ℕ, zero, suc, ◌+◌, ◌%◌, ◌^◌, ◌<◌, ◌≡◌, ◌≢◌, ◌∙◌, ◌⊎◌, inl, inr, refl, ap, sym, Option, none, some,
  List, [], ◌∷◌, length, get_or, set, get_or-set_self, get_or-set_ne, arith,
}
use l3_dd_trg.Veth.{Counters}
use l3_dd_trg.Veth.Parallel.{
  Stage, waiting, entered, loaded_count, stored_count, loaded_bytes, stored_bytes, left, Sender,
  System, vnet_xmit_step, nobody, sender_at, step,
}

abbrev pub IsInside : Stage → Type 0
IsInside waiting = ⊥
IsInside left = ⊥
IsInside _ = Unit

-- What was loaded is there still.
abbrev IsFresh : Counters → Stage → Type 0
IsFresh c (loaded_count n) = n ≡ c.tx_pkt_count
IsFresh c (loaded_bytes n) = n ≡ c.tx_bytes
IsFresh c _ = Unit

-- What a sender has added to the counters.
abbrev pub counted_at : Stage → ℕ
counted_at waiting = 0
counted_at entered = 0
counted_at (loaded_count n) = 0
counted_at _ = 1

abbrev pub sent_at : ℕ → Stage → ℕ
sent_at len stored_bytes = len
sent_at len left = len
sent_at len _ = 0

abbrev pub counted : Sender → ℕ
counted s = counted_at s.stage

abbrev pub sent : Sender → ℕ
sent s = sent_at s.len s.stage

abbrev pub total : (Sender → ℕ) → List Sender → ℕ
total f [] = 0
total f (s ∷ ss) = f s + total f ss

pub none≢some : {a : ℕ} → none ≢ some a
none≢some = λ e. ground arith

some_injective : {a b : ℕ} → some a ≡ some b → a ≡ b
some_injective e = ground arith

pub total-set :
    (f : Sender → ℕ) (ss : List Sender) (i : ℕ) (s : Sender)
    → i < length ss
    → total f (set ss i s) + f (get_or ss i nobody) ≡ total f ss + f s
total-set f [] i s h = absurd (omega arith)
total-set f (t ∷ ss) zero s h = omega arith
total-set f (t ∷ ss) (suc i) s h = omega (arith, total-set f ss i s (omega arith))

pub IsFresh-outside : (c : Counters) (g : Stage) → ¬ (IsInside g) → IsFresh c g
IsFresh-outside c waiting out = tt
IsFresh-outside c left out = tt
IsFresh-outside c entered out = tt
IsFresh-outside c stored_count out = tt
IsFresh-outside c stored_bytes out = tt
IsFresh-outside c (loaded_count n) out = absurd (out tt)
IsFresh-outside c (loaded_bytes n) out = absurd (out tt)

-- Since the counters had these values.
pub record IsLocked (start : Counters) (s : System) : Type 0 where
  pub alone : (j : ℕ) → IsInside (sender_at s j).stage → s.holder ≡ some j
  pub held : (j : ℕ) → s.holder ≡ some j → IsInside (sender_at s j).stage
  pub fresh : (j : ℕ) → IsFresh s.counters (sender_at s j).stage
  pub packets : s.counters.tx_pkt_count ≡ (start.tx_pkt_count + total counted s.senders) % 2 ^ 32
  pub shown : 0 < total counted s.senders → s.counters.txpktnum ≡ s.counters.tx_pkt_count
  pub bytes : s.counters.tx_bytes ≡ (start.tx_bytes + total sent s.senders) % 2 ^ 32

module _ (start : Counters) (s : System) (i : ℕ) (here : i < length s.senders)
    (h : IsLocked start s) where
  abbrev me : Sender
  me = sender_at s i

  -- The i-th sender goes on to the stage `g` and leaves these counters and this holder.
  abbrev moved : Counters → Option ℕ → Stage → System
  moved c k g = record {
    counters = c;
    holder = k;
    senders = set s.senders i (record me { stage = g });
  }

  at_self :
      (c : Counters) (k : Option ℕ) (g : Stage)
      → sender_at (moved c k g) i ≡ record me { stage = g }
  at_self c k g = get_or-set_self s.senders i (record me { stage = g }) nobody here

  at_other :
      (c : Counters) (k : Option ℕ) (g : Stage) (j : ℕ)
      → i ≢ j
      → sender_at (moved c k g) j ≡ sender_at s j
  at_other c k g j ne = get_or-set_ne s.senders i j (record me { stage = g }) nobody ne

  moved-IsLocked :
      (c : Counters) (k : Option ℕ) (g : Stage)
      → (IsInside g → k ≡ some i)
      → ((j : ℕ) → i ≢ j → IsInside (sender_at s j).stage → k ≡ some j)
      → (k ≡ some i → IsInside g)
      → ((j : ℕ) → i ≢ j → k ≡ some j → IsInside (sender_at s j).stage)
      → IsFresh c g
      → ((j : ℕ) → i ≢ j → IsFresh c (sender_at s j).stage)
      → c.tx_pkt_count ≡ (start.tx_pkt_count + total counted (moved c k g).senders) % 2 ^ 32
      → (0 < total counted (moved c k g).senders → c.txpktnum ≡ c.tx_pkt_count)
      → c.tx_bytes ≡ (start.tx_bytes + total sent (moved c k g).senders) % 2 ^ 32
      → IsLocked start (moved c k g)
  moved-IsLocked c k g mine others mine_held others_held mine_fresh others_fresh packets shown
        bytes =
      record {
        alone = λ j. elim (decide i j) [
          | inl same ↦ rw (sym same, at_self c k g) mine
          | inr other ↦ rw (at_other c k g j other) (others j other)
        ];
        held = λ j. elim (decide i j) [
          | inl same ↦ rw (sym same, at_self c k g) mine_held
          | inr other ↦ rw (at_other c k g j other) (others_held j other)
        ];
        fresh = λ j. elim (decide i j) [
          | inl same ↦ rw (sym same, at_self c k g) mine_fresh
          | inr other ↦ rw (at_other c k g j other) (others_fresh j other)
        ];
        packets = packets;
        shown = shown;
        bytes = bytes;
      }
    where
      decide : (a b : ℕ) → (a ≡ b) ⊎ (a ≢ b)
      decide a b = ground arith

  counted-moved :
      (c : Counters) (k : Option ℕ) (g g' : Stage)
      → me.stage ≡ g
      → total counted (moved c k g').senders + counted_at g
        ≡ total counted s.senders + counted_at g'
  counted-moved c k g g' e =
      omega (arith, total-set counted s.senders i (record me { stage = g' }) here, ap counted_at e)

  sent-moved :
      (c : Counters) (k : Option ℕ) (g g' : Stage)
      → me.stage ≡ g
      → total sent (moved c k g').senders + sent_at me.len g
        ≡ total sent s.senders + sent_at me.len g'
  sent-moved c k g g' e =
      omega
        (arith, total-set sent s.senders i (record me { stage = g' }) here, ap (sent_at me.len) e)

  -- Behind the lock there is nobody else.
  mine : (g : Stage) → me.stage ≡ g → IsInside g → s.holder ≡ some i
  mine g e p = h.alone i (rw e p)

  others_outside :
      (g : Stage) → me.stage ≡ g → IsInside g → (j : ℕ) → i ≢ j → ¬ (IsInside (sender_at s j).stage)
  others_outside g e p j ne q = ne (some_injective (sym (mine g e p) ∙ h.alone j q))

  -- A step that leaves the counters and the lock.
  stayed :
      (g g' : Stage)
      → me.stage ≡ g
      → (IsInside g' → IsInside g)
      → (IsInside g → IsInside g')
      → IsFresh s.counters g'
      → counted_at g' ≡ counted_at g
      → sent_at me.len g' ≡ sent_at me.len g
      → IsLocked start (moved s.counters s.holder g')
  stayed g g' e inside kept is_fresh same_count same_sent =
      let c = counted-moved s.counters s.holder g g' e in
      let b = sent-moved s.counters s.holder g g' e in
      moved-IsLocked s.counters s.holder g' (λ p. mine g e (inside p)) (λ j ne. h.alone j)
        (λ q. kept (rw e at (h.held i q))) (λ j ne. h.held j) is_fresh (λ j ne. h.fresh j)
        (omega (arith, h.packets, c, same_count)) (λ p. h.shown (omega (arith, p, c, same_count)))
        (omega (arith, h.bytes, b, same_sent))

  -- A step from any stage.
  stepped :
      (k : Option ℕ) (g : Stage)
      → s.holder ≡ k
      → me.stage ≡ g
      → let (c', k', g') = vnet_xmit_step s.counters k i me.len g in IsLocked start (moved c' k' g')
  unfolding vnet_xmit_step
  stepped none waiting hk e =
      let c = counted-moved s.counters (some i) waiting entered e in
      let b = sent-moved s.counters (some i) waiting entered e in
      moved-IsLocked s.counters (some i) entered (λ p. refl)
        (λ j ne p. absurd (none≢some (sym hk ∙ h.alone j p))) (λ q. tt)
        (λ j ne q. absurd (ne (some_injective q))) tt (λ j ne. h.fresh j)
        (omega (arith, h.packets, c)) (λ p. h.shown (omega (arith, p, c)))
        (omega (arith, h.bytes, b))
  stepped (some j) waiting hk e =
      rw (sym hk) (stayed waiting waiting e (λ p. p) (λ p. p) tt refl refl)
  stepped k entered hk e =
      rw (sym hk)
        (stayed entered (loaded_count s.counters.tx_pkt_count) e (λ p. tt) (λ p. tt) refl refl refl)
  stepped k (loaded_count n) hk e =
      let count = (n + 1) % 2 ^ 32 in
      let c' : Counters = record s.counters { tx_pkt_count = count; txpktnum = count } in
      let c = counted-moved c' k (loaded_count n) stored_count e in
      let b = sent-moved c' k (loaded_count n) stored_count e in
      let loaded : n ≡ s.counters.tx_pkt_count = rw e at (h.fresh i) in
      moved-IsLocked c' k stored_count (λ p. sym hk ∙ mine (loaded_count n) e tt)
        (λ j ne p. absurd (others_outside (loaded_count n) e tt j ne p)) (λ q. tt)
        (λ j ne q. h.held j (hk ∙ q)) tt
        (λ j ne.
          IsFresh-outside c' (sender_at s j).stage (others_outside (loaded_count n) e tt j ne))
        (omega (arith, loaded, h.packets, c)) (λ p. refl) (omega (arith, h.bytes, b))
  stepped k stored_count hk e =
      rw (sym hk) (
        stayed stored_count (loaded_bytes s.counters.tx_bytes) e (λ p. tt) (λ p. tt) refl refl refl)
  stepped k (loaded_bytes n) hk e =
      let c' : Counters = record s.counters { tx_bytes = (n + me.len) % 2 ^ 32 } in
      let c = counted-moved c' k (loaded_bytes n) stored_bytes e in
      let b = sent-moved c' k (loaded_bytes n) stored_bytes e in
      let loaded : n ≡ s.counters.tx_bytes = rw e at (h.fresh i) in
      moved-IsLocked c' k stored_bytes (λ p. sym hk ∙ mine (loaded_bytes n) e tt)
        (λ j ne p. absurd (others_outside (loaded_bytes n) e tt j ne p)) (λ q. tt)
        (λ j ne q. h.held j (hk ∙ q)) tt
        (λ j ne.
          IsFresh-outside c' (sender_at s j).stage (others_outside (loaded_bytes n) e tt j ne))
        (omega (arith, h.packets, c)) (λ p. h.shown (omega (arith, p, c)))
        (omega (arith, loaded, h.bytes, b))
  stepped k stored_bytes hk e =
      let c = counted-moved s.counters none stored_bytes left e in
      let b = sent-moved s.counters none stored_bytes left e in
      moved-IsLocked s.counters none left (λ p. absurd p)
        (λ j ne p. absurd (others_outside stored_bytes e tt j ne p)) (λ q. absurd (none≢some q))
        (λ j ne q. absurd (none≢some q)) tt (λ j ne. h.fresh j) (omega (arith, h.packets, c))
        (λ p. h.shown (omega (arith, p, c))) (omega (arith, h.bytes, b))
  stepped k left hk e = rw (sym hk) (stayed left left e (λ p. p) (λ p. p) tt refl refl)

  -- A step keeps all this.
  pub step-IsLocked : IsLocked start (step s i)
  unfolding step
  step-IsLocked = stepped s.holder me.stage refl refl
