-- ===== src/Veth/Counts.antt =====
-- What the statistics of veth_netdrv.c say of the packets that were transmitted.
use l3_dd_trg.Base.{
  ℕ, ◌+◌, ◌-◌, ◌%◌, ◌^◌, ◌≡◌, ◌≤◌, ◌<◌, refl, ap, ◌∙◌, Bool, some, List, [], ◌∷◌, ◌==◌, ◌&&◌,
  if◌then◌else◌, arith, Bool-cases, inl, inr, sym,
}
use l3_dd_trg.Veth.{
  Counters, Packet, ipproto_udp, portnum, vnet_start_xmit, xmit_all, vnet_get_stats,
}

-- The interface has just been set up.
abbrev pub fresh : Counters
fresh = record { tx_pkt_count = 0; txpktnum = 0; rxpktnum = 0; tx_bytes = 0; rx_bytes = 0 }

module _ (ntohs : ℕ → ℕ) where
  -- A datagram to the driver's port.
  abbrev pub is_ours : Packet → Bool
  is_ours skb = skb.protocol == ipproto_udp && ntohs skb.dest == portnum

  -- How many packets are ours, and how long they are together.
  abbrev pub count_ours : List Packet → ℕ
  count_ours [] = 0
  count_ours (skb ∷ skbs) = let more = count_ours skbs in if is_ours skb then 1 + more else more

  abbrev pub length_ours : List Packet → ℕ
  length_ours [] = 0
  length_ours (skb ∷ skbs) =
      let more = length_ours skbs in if is_ours skb then skb.len + more else more

  abbrev Counted : Counters → ℕ → ℕ → Type 0
  Counted c n b =
      (c.tx_pkt_count ≡ n % 2 ^ 32)
      × (c.txpktnum ≡ n % 2 ^ 32)
      × (c.tx_bytes ≡ b % 2 ^ 32)
      × (c.rxpktnum ≡ 0)
      × (c.rx_bytes ≡ 0)

  -- The ports have 16 bits.
  abbrev pub ShortPorts : List Packet → Type 0
  ShortPorts [] = Unit
  ShortPorts (skb ∷ skbs) = (skb.dest < 2 ^ 16) × ShortPorts skbs

  -- `ntohs` swaps the two bytes of a number, or none, and does so again.
  module _ (swap : (n : ℕ) → n < 2 ^ 16 → ntohs (ntohs n) ≡ n) where
    compare_lem : (dest : ℕ) → dest < 2 ^ 16 → (dest == ntohs portnum) ≡ (ntohs dest == portnum)
    compare_lem dest h = elim (Bool-cases (dest == ntohs portnum)) [
      | inl same ↦
          let e : dest ≡ ntohs portnum = ground arith in
          let back : ntohs dest ≡ portnum = ap ntohs e ∙ swap portnum (omega arith) in
          rw (same, back)
      | inr other ↦ elim (Bool-cases (ntohs dest == portnum)) [
        | inl same ↦
            let e : ntohs dest ≡ portnum = ground arith in
            let back : dest ≡ ntohs portnum = sym (swap dest h) ∙ ap ntohs e in
            absurd (ground arith)
        | inr different ↦ rw (other, different)
      ]
    ]

    xmit_step :
        (c : Counters) (skb : Packet) (n b : ℕ)
        → skb.dest < 2 ^ 16
        → Counted c n b
        → Counted
            (vnet_start_xmit ntohs c (some skb)).1
            (if is_ours skb then 1 + n else n)
            (if is_ours skb then skb.len + b else b)
    unfolding vnet_start_xmit
    xmit_step c skb n b short h = let port = compare_lem skb.dest short in rw port (ground arith)

    xmit_all_lem :
        (c : Counters) (skbs : List Packet) (n b : ℕ)
        → ShortPorts skbs
        → Counted c n b
        → Counted (xmit_all ntohs c skbs) (n + count_ours skbs) (b + length_ours skbs)
    unfolding xmit_all
    xmit_all_lem c [] n b s h = omega arith
    xmit_all_lem c (skb ∷ skbs) n b s h =
        let ih =
          xmit_all_lem (vnet_start_xmit ntohs c (some skb)).1 skbs
            (if is_ours skb then 1 + n else n) (if is_ours skb then skb.len + b else b) s.1
            (xmit_step c skb n b s.0 h) in
        ground arith

    -- From a fresh interface, any packets: with fewer than 2^31 datagrams to the driver's port, of
    -- fewer than 2^31 bytes together, the statistics give just their number and their length, and
    -- nothing received.
    pub vnet_get_stats-xmit_all :
        (skbs : List Packet)
        → ShortPorts skbs
        → count_ours skbs < 2 ^ 31
        → length_ours skbs < 2 ^ 31
        → vnet_get_stats (xmit_all ntohs fresh skbs) ≡ record {
          rx_packets = 0;
          received_bytes = 0;
          tx_packets = count_ours skbs;
          sent_bytes = length_ours skbs;
        }
    unfolding vnet_get_stats
    vnet_get_stats-xmit_all skbs s n b =
        let c = xmit_all_lem fresh skbs 0 0 s (refl, refl, refl, refl, refl) in ground arith

    -- With 2^31 bytes or more, up to 2^32, the statistics claim 2^64 - 2^32 bytes more than were
    -- sent.
    pub sent_bytes_wrap :
        (skbs : List Packet)
        → ShortPorts skbs
        → 2 ^ 31 ≤ length_ours skbs
        → length_ours skbs < 2 ^ 32
        → (vnet_get_stats (xmit_all ntohs fresh skbs)).sent_bytes
          ≡ length_ours skbs + (2 ^ 64 - 2 ^ 32)
    unfolding vnet_get_stats
    sent_bytes_wrap skbs s low high =
        let c = xmit_all_lem fresh skbs 0 0 s (refl, refl, refl, refl, refl) in ground arith
