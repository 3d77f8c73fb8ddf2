-- ===== src/Veth/Tests.antt =====
-- Runs of veth_netdrv.c on a machine with the network's byte order, and the theorems at them.
use l3_dd_trg.Veth.Parallel.Fair.{HasTurn, AllRounds, flatten, fair_together}
use l3_dd_trg.Base.{
  ◌-◌, ◌≤◌, length, leb, le→leb, if◌then◌else◌, zero, suc, inl, inr, none, map, ◌<◌, take,
  replicate, some, ℕ, ◌+◌, ◌*◌, ◌≡◌, refl, List, [], ◌∷◌, true, arith,
}
use l3_dd_trg.Base.Int.{pos}
use l3_dd_trg.Veth.Parallel.{step, steps, vnet_xmit_step}
use l3_dd_trg.Veth.Parallel.Progress.{AllLeft, TurnsWithin}
use l3_dd_trg.Veth.Parallel.Snapshot.{left_count, left_bytes, snapshot}
use l3_dd_trg.Veth.Parallel.Together.{at_the_lock, ours}
use l3_dd_trg.Veth.Listener.{
  Receiver, got_packet, bytes_long, contains, listener, account, listener_lem,
}
use l3_dd_trg.Veth.{Packet, xmit_all, vnet_get_stats}
use l3_dd_trg.Veth.Counts.{fresh, vnet_get_stats-xmit_all}
use l3_dd_trg.Veth.Talker.{System, talker, talker-vnet_get_stats}
use l3_dd_trg.Base.Decimal.{print_int}
use l3_dd_trg.Veth.Setup.{held_resource}

abbrev same_order : ℕ → ℕ
same_order n = n

-- A datagram to the port, one to another port, a TCP segment, and a datagram again.
abbrev traffic : List Packet
traffic =
    record { protocol = 17; dest = 54295; len = 46 }
    ∷ record { protocol = 17; dest = 53; len = 70 }
    ∷ record { protocol = 6; dest = 54295; len = 60 }
    ∷ record { protocol = 17; dest = 54295; len = 100 }
    ∷ []

vnet_get_stats-xmit_all_example :
    vnet_get_stats (xmit_all same_order fresh traffic)
    ≡ record { rx_packets = 0; received_bytes = 0; tx_packets = 2; sent_bytes = 146 }
vnet_get_stats-xmit_all_example =
    vnet_get_stats-xmit_all same_order (λ n h. refl) traffic
      (omega arith, (omega arith, (omega arith, (omega arith, tt)))) (omega arith) (omega arith)

-- An interface with an MTU of 1500 bytes: of a longer message the first packet only has the port.
abbrev ethernet : ℕ → List ℕ → List Packet
ethernet port msg =
    if leb (length msg) 1472
    then record { protocol = 17; dest = port; len = 42 + length msg } ∷ []
    else record { protocol = 17; dest = port; len = 1514 }
      ∷ record { protocol = 17; dest = 0; len = 34 + (length msg - 1472) }
      ∷ []

ethernet_whole :
    (port : ℕ) (msg : List ℕ)
    → length msg ≤ 1472
    → ethernet port msg ≡ record { protocol = 17; dest = port; len = 42 + length msg } ∷ []
ethernet_whole port msg h = rw (le→leb (length msg) 1472 h) refl

-- as root, with every datagram sent
abbrev hello : List ℕ
hello = 104 ∷ 105 ∷ []

talker-vnet_get_stats_example :
    let s : System = record {
      is_root = true;
      socket = true;
      setsockopt = true;
      sendto = λ _. true;
    } in
    ((talker same_order ethernet s 4 hello (print_int (pos 3))).0 ≡ 0)
    × (vnet_get_stats
          (xmit_all same_order fresh (talker same_order ethernet s 4 hello (print_int (pos 3))).1)
        ≡ record { rx_packets = 0; received_bytes = 0; tx_packets = 3; sent_bytes = 3 * (42 + 2) })
talker-vnet_get_stats_example =
    talker-vnet_get_stats same_order ethernet same_order (λ n h. refl) (omega arith) refl 42 1472
      ethernet_whole hello (omega arith) (λ _. true) 3 (λ j. refl) (omega arith) (omega arith)

abbrev network : Receiver
network = record { socket = true; bind = true; recvfrom = λ n. some (take n (b'h' ∷ b'i' ∷ [])) }

network_said :
    listener network (replicate 1024 7)
    ≡ some (0, got_packet ∷ bytes_long 2 ∷ contains (b'h' ∷ b'i' ∷ []) ∷ [])
unfolding listener
network_said = refl

listener_lem_example : listener network (replicate 1024 7) ≡ some (0, account (b'h' ∷ b'i' ∷ []))
listener_lem_example =
    listener_lem network (replicate 1024 7) (b'h' ∷ b'i' ∷ []) refl refl refl refl (omega arith)

-- The second sender comes to the lock while the first is behind it.
abbrev crowd : List ℕ
crowd = 0 ∷ 1 ∷ 0 ∷ 0 ∷ 1 ∷ 0 ∷ 0 ∷ 0 ∷ 1 ∷ 1 ∷ 1 ∷ 1 ∷ 1 ∷ 1 ∷ []

crowd_bytes : (steps (at_the_lock fresh (46 ∷ 50 ∷ [])) crowd).counters.tx_bytes ≡ 96
unfolding steps step vnet_xmit_step
crowd_bytes = refl

both_turn : (i : ℕ) → i < 2 → HasTurn i (1 ∷ 0 ∷ [])
both_turn zero h = inr (inl refl)
both_turn (suc zero) h = inl refl
both_turn (suc (suc i)) h = absurd (omega arith)

both_rounds : (k : ℕ) → AllRounds 2 (replicate k (1 ∷ 0 ∷ []))
both_rounds zero = tt
both_rounds (suc k) = ((omega arith, (omega arith, tt)), both_turn, both_rounds k)

fair_together_example :
    let s = steps (at_the_lock fresh (46 ∷ 50 ∷ [])) (flatten (replicate 12 (1 ∷ 0 ∷ []))) in
    let alone = xmit_all same_order fresh (map (ours same_order) (46 ∷ 50 ∷ [])) in
    AllLeft s.senders
    × (s.holder ≡ none)
    × (s.counters.tx_pkt_count ≡ alone.tx_pkt_count)
    × (s.counters.tx_bytes ≡ alone.tx_bytes)
fair_together_example =
    fair_together same_order fresh (46 ∷ 50 ∷ []) (replicate 12 (1 ∷ 0 ∷ [])) (omega arith)
      (omega arith) (both_rounds 12) (omega arith)

-- The statistics are read while the second sender is still at the lock.
abbrev first_gone : List ℕ
first_gone = 0 ∷ 1 ∷ 0 ∷ 0 ∷ 1 ∷ 0 ∷ 0 ∷ 0 ∷ []

first_gone_free : (steps (at_the_lock fresh (46 ∷ 50 ∷ [])) first_gone).holder ≡ none
unfolding steps step vnet_xmit_step
first_gone_free = refl

first_gone_within : TurnsWithin 2 first_gone
first_gone_within =
    let (first, second) : (0 < 2) × (1 < 2) = (omega arith, omega arith) in
    (first, (second, (first, (first, (second, (first, (first, (first, tt))))))))

first_gone_counts : left_count (steps (at_the_lock fresh (46 ∷ 50 ∷ [])) first_gone).senders ≡ 1
unfolding steps step vnet_xmit_step
first_gone_counts = refl

snapshot_example :
    let s = steps (at_the_lock fresh (46 ∷ 50 ∷ [])) first_gone in
    vnet_get_stats s.counters ≡ record {
      rx_packets = 0;
      received_bytes = 0;
      tx_packets = left_count s.senders;
      sent_bytes = left_bytes s.senders;
    }
snapshot_example =
    snapshot (46 ∷ 50 ∷ []) first_gone (omega arith) (omega arith) first_gone_within first_gone_free
