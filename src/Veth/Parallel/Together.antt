-- ===== src/Veth/Parallel/Together.antt =====
-- Several senders at once add up to the same senders one after another.
use l3_dd_trg.Base.{
  ==_refl, ℕ, zero, suc, ◌+◌, ◌%◌, ◌^◌, ◌<◌, ◌≡◌, ◌⊎◌, refl, ap, none, some, List, [], ◌∷◌, length,
  get_or, map, arith,
}
use l3_dd_trg.Veth.{Counters, Packet, ipproto_udp, portnum, vnet_start_xmit, xmit_all}
use l3_dd_trg.Veth.Parallel.{waiting, Sender, System, nobody, step, steps}
use l3_dd_trg.Veth.Parallel.Locked.{
  IsInside, counted, sent, total, none≢some, IsLocked, IsFresh-outside,
}
use l3_dd_trg.Veth.Parallel.Progress.{
  AllLeft, TurnsWithin, left_to_do, steps-kept, progress, AllLeft-counted, AllLeft-sent,
}

abbrev pub sender_of : ℕ → Sender
sender_of len = record { len = len; stage = waiting }

-- Senders with packets of these lengths come to the lock, which is free.
abbrev pub at_the_lock : Counters → List ℕ → System
at_the_lock c lens = record { counters = c; holder = none; senders = map sender_of lens }

abbrev pub sum : List ℕ → ℕ
sum [] = 0
sum (n ∷ ns) = n + sum ns

-- Nobody is behind the lock, and nothing is counted, at the start.
start-outside : (lens : List ℕ) (j : ℕ) → ¬ (IsInside (get_or (map sender_of lens) j nobody).stage)
start-outside [] j p = p
start-outside (l ∷ lens) zero p = p
start-outside (l ∷ lens) (suc j) p = start-outside lens j p

pub start-totals :
    (lens : List ℕ)
    → (total counted (map sender_of lens) ≡ 0)
      × (total sent (map sender_of lens) ≡ 0)
      × (length (map sender_of lens) ≡ length lens)
      × (total (λ t. t.len) (map sender_of lens) ≡ sum lens)
start-totals [] = (refl, refl, refl, refl)
start-totals (l ∷ lens) = let h = start-totals lens in omega (arith, h)

pub start-IsLocked :
    (c : Counters) (lens : List ℕ)
    → c.tx_pkt_count < 2 ^ 32
    → c.tx_bytes < 2 ^ 32
    → IsLocked c (at_the_lock c lens)
start-IsLocked c lens p b =
    let h = start-totals lens in
    record {
      alone = λ j q. absurd (start-outside lens j q);
      held = λ j q. absurd (none≢some q);
      fresh = λ j.
          IsFresh-outside c (get_or (map sender_of lens) j nobody).stage (start-outside lens j);
      packets = omega (arith, h.0);
      shown = λ q. absurd (omega (arith, q, h.0));
      bytes = omega (arith, h.1);
    }

module _ (ntohs : ℕ → ℕ) where
  -- A datagram to the driver's port of this length.
  abbrev pub ours : ℕ → Packet
  ours len = record { protocol = ipproto_udp; dest = ntohs portnum; len = len }

  one_sent :
      (c : Counters) (len : ℕ)
      → (vnet_start_xmit ntohs c (some (ours len))).1 ≡ record c {
        tx_pkt_count = (c.tx_pkt_count + 1) % 2 ^ 32;
        txpktnum = (c.tx_pkt_count + 1) % 2 ^ 32;
        tx_bytes = (c.tx_bytes + len) % 2 ^ 32;
      }
  unfolding vnet_start_xmit
  one_sent c len = rw (==_refl (ntohs portnum)) refl

  one_after_another :
      (lens : List ℕ) (c : Counters)
      → c.tx_pkt_count < 2 ^ 32
      → c.tx_bytes < 2 ^ 32
      → let end = xmit_all ntohs c (map ours lens) in
        (end.tx_pkt_count ≡ (c.tx_pkt_count + length lens) % 2 ^ 32)
        × (end.tx_bytes ≡ (c.tx_bytes + sum lens) % 2 ^ 32)
  unfolding xmit_all
  one_after_another [] c p b = (omega arith, omega arith)
  one_after_another (l ∷ lens) c p b =
      let c' : Counters = record c {
        tx_pkt_count = (c.tx_pkt_count + 1) % 2 ^ 32;
        txpktnum = (c.tx_pkt_count + 1) % 2 ^ 32;
        tx_bytes = (c.tx_bytes + l) % 2 ^ 32;
      } in
      let rest = one_after_another lens c' (omega arith) (omega arith) in
      let end = ap (λ d. xmit_all ntohs d (map ours lens)) (one_sent c l) in
      (
        omega (arith, ap (λ d. d.tx_pkt_count) end, rest.0),
        omega (arith, ap (λ d. d.tx_bytes) end, rest.1),
      )

  -- Senders with packets for the driver's port come to its lock at once. However their loads and stores
  -- of the counters mix: while not all have left, there is one whose next step is a step less to make,
  -- so they do not block one another; and when all have left, the numbers of packets and of bytes are those
  -- of the same packets sent one after another.
  pub together :
      (c : Counters) (lens turns : List ℕ)
      → c.tx_pkt_count < 2 ^ 32
      → c.tx_bytes < 2 ^ 32
      → TurnsWithin (length lens) turns
      → let s = steps (at_the_lock c lens) turns in
        let alone = xmit_all ntohs c (map ours lens) in
        ((AllLeft s.senders
            → (s.counters.tx_pkt_count ≡ alone.tx_pkt_count)
              × (s.counters.tx_bytes ≡ alone.tx_bytes))
          × (AllLeft s.senders
              ⊎ ((i : ℕ) × (i < length s.senders)
                  × (left_to_do (step s i).senders < left_to_do s.senders))))
  together c lens turns p b w =
      let h = start-totals lens in
      let (locked, many, long) =
        steps-kept c turns (at_the_lock c lens) (start-IsLocked c lens p b) (rw (h.2) w) in
      let alone = one_after_another lens c p b in
      let s = steps (at_the_lock c lens) turns in
      (
        λ gone. (
          omega (arith, locked.packets, AllLeft-counted s.senders gone, many, h.2, alone.0),
          omega (arith, locked.bytes, AllLeft-sent s.senders gone, long, h.3, alone.1),
        ),
        progress c s locked,
      )
