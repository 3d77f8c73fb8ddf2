-- ===== src/Veth/Parallel/Snapshot.antt =====
-- `vnet_get_stats` of veth_netdrv.c while senders are in `vnet_start_xmit`: it takes the same lock, so it
-- reads the counters only while nobody is behind it.
use l3_dd_trg.Base.{
  ℕ, suc, ◌^◌, ◌≤◌, ◌<◌, ◌≡◌, ◌∙◌, refl, sym, Option, none, some, List, [], ◌∷◌, length, get_or,
  arith,
}
use l3_dd_trg.Veth.{Counters, vnet_get_stats}
use l3_dd_trg.Veth.Counts.{fresh}
use l3_dd_trg.Veth.Parallel.{
  Stage, waiting, entered, loaded_count, stored_count, loaded_bytes, stored_bytes, left, Sender,
  System, vnet_xmit_step, nobody, sender_at, step, steps,
}
use l3_dd_trg.Veth.Parallel.Locked.{IsInside, counted_at, sent_at, counted, sent, total, none≢some}
use l3_dd_trg.Veth.Parallel.Progress.{TurnsWithin, steps-kept}
use l3_dd_trg.Veth.Parallel.Together.{at_the_lock, sum, start-IsLocked, start-totals}

-- How many senders have left, and with how many bytes.
abbrev left_count_at : Stage → ℕ
left_count_at left = 1
left_count_at _ = 0

abbrev left_bytes_at : ℕ → Stage → ℕ
left_bytes_at len left = len
left_bytes_at len _ = 0

abbrev pub left_count : List Sender → ℕ
left_count ss = total (λ s. left_count_at s.stage) ss

abbrev pub left_bytes : List Sender → ℕ
left_bytes ss = total (λ s. left_bytes_at s.len s.stage) ss

-- Both counts of packets are the same, and nothing is received.
record IsPaired (c : Counters) : Type 0 where
  same : c.txpktnum ≡ c.tx_pkt_count
  no_packets : c.rxpktnum ≡ 0
  no_bytes : c.rx_bytes ≡ 0

xmit_step-IsPaired :
    (c : Counters) (h : Option ℕ) (i len : ℕ) (g : Stage)
    → IsPaired c
    → IsPaired (vnet_xmit_step c h i len g).0
unfolding vnet_xmit_step
xmit_step-IsPaired c none i len waiting p = p
xmit_step-IsPaired c (some j) i len waiting p = p
xmit_step-IsPaired c h i len entered p = p
xmit_step-IsPaired c h i len (loaded_count n) p = record {
  same = refl;
  no_packets = p.no_packets;
  no_bytes = p.no_bytes;
}
xmit_step-IsPaired c h i len stored_count p = p
xmit_step-IsPaired c h i len (loaded_bytes n) p = record {
  same = p.same;
  no_packets = p.no_packets;
  no_bytes = p.no_bytes;
}
xmit_step-IsPaired c h i len stored_bytes p = p
xmit_step-IsPaired c h i len left p = p

steps-IsPaired :
    (turns : List ℕ) (s : System) → IsPaired s.counters → IsPaired (steps s turns).counters
unfolding steps step
steps-IsPaired [] s p = p
steps-IsPaired (i ∷ turns) s p =
    steps-IsPaired turns (step s i)
      (xmit_step-IsPaired s.counters s.holder i (sender_at s i).len (sender_at s i).stage p)

-- Of senders none of which is behind the lock, those that are counted have left.
outside-count : (g : Stage) → ¬ (IsInside g) → counted_at g ≡ left_count_at g
outside-count waiting out = refl
outside-count left out = refl
outside-count entered out = absurd (out tt)
outside-count stored_count out = absurd (out tt)
outside-count stored_bytes out = absurd (out tt)
outside-count (loaded_count n) out = absurd (out tt)
outside-count (loaded_bytes n) out = absurd (out tt)

outside-bytes : (len : ℕ) (g : Stage) → ¬ (IsInside g) → sent_at len g ≡ left_bytes_at len g
outside-bytes len waiting out = refl
outside-bytes len left out = refl
outside-bytes len entered out = absurd (out tt)
outside-bytes len stored_count out = absurd (out tt)
outside-bytes len stored_bytes out = absurd (out tt)
outside-bytes len (loaded_count n) out = absurd (out tt)
outside-bytes len (loaded_bytes n) out = absurd (out tt)

outside-totals :
    (ss : List Sender)
    → ((j : ℕ) → ¬ (IsInside (get_or ss j nobody).stage))
    → (total counted ss ≡ left_count ss) × (total sent ss ≡ left_bytes ss)
outside-totals [] out = (refl, refl)
outside-totals (s ∷ ss) out =
    let rest = outside-totals ss (λ j. out (suc j)) in
    (
      omega (arith, rest.0, outside-count s.stage (out 0)),
      omega (arith, rest.1, outside-bytes s.len s.stage (out 0)),
    )

left_at-le : (len : ℕ) (g : Stage) → (left_count_at g ≤ 1) × (left_bytes_at len g ≤ len)
left_at-le len left = omega arith
left_at-le len waiting = omega arith
left_at-le len _ = omega arith

left-le : (ss : List Sender) → (left_count ss ≤ length ss) × (left_bytes ss ≤ total (λ s. s.len) ss)
left-le [] = omega arith
left-le (s ∷ ss) = omega (arith, left-le ss, left_at-le s.len s.stage)

-- Fewer than 2^31 senders, whose packets have fewer than 2^31 bytes together, come to the lock of a
-- fresh interface, and move a step at a time in any order: whenever the lock is free, so that
-- vnet_get_stats can take it, it gives exactly the number of the senders that have left and the bytes
-- of their packets, and nothing received.
pub snapshot :
    (lens turns : List ℕ)
    → length lens < 2 ^ 31
    → sum lens < 2 ^ 31
    → TurnsWithin (length lens) turns
    → (steps (at_the_lock fresh lens) turns).holder ≡ none
    → let s = steps (at_the_lock fresh lens) turns in
      vnet_get_stats s.counters ≡ record {
        rx_packets = 0;
        received_bytes = 0;
        tx_packets = left_count s.senders;
        sent_bytes = left_bytes s.senders;
      }
unfolding vnet_get_stats
snapshot lens turns few short w free =
    let h = start-totals lens in
    let begun = start-IsLocked fresh lens (omega arith) (omega arith) in
    let (locked, many, long) = steps-kept fresh turns (at_the_lock fresh lens) begun (rw (h.2) w) in
    let s = steps (at_the_lock fresh lens) turns in
    let p =
      steps-IsPaired turns (at_the_lock fresh lens)
        (record { same = refl; no_packets = refl; no_bytes = refl }) in
    let out = outside-totals s.senders (λ j inside. none≢some (sym free ∙ locked.alone j inside)) in
    let le = left-le s.senders in
    let packets : s.counters.txpktnum ≡ left_count s.senders =
      omega (arith, p.same, locked.packets, out, le, many, h.2, few) in
    let bytes : s.counters.tx_bytes ≡ left_bytes s.senders =
      omega (arith, locked.bytes, out, le, long, h.3, short) in
    ground (arith, packets, bytes, p.no_packets, p.no_bytes, le, many, long, h.2, h.3, few, short)
