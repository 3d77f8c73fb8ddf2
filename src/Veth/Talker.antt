-- ===== src/Veth/Talker.antt =====
-- netdrv_veth/userspc/talker_dgram.c, which sends datagrams to the driver's port, and what the
-- driver's statistics say of them.
use l3_dd_trg.Base.{
  ℕ, zero, suc, ◌+◌, ◌*◌, ◌^◌, ◌<◌, ◌≤◌, ◌++◌, ◌≡◌, refl, ap, ◌<◌, ◌∙◌, Bool, true, false, not,
  List, [], ◌∷◌, length, ◌==◌, if◌then◌else◌, arith,
}
use l3_dd_trg.Base.Int.{pos, pos_part}
use l3_dd_trg.Base.Decimal.{print_int, atoi, atoi-print_int}
use l3_dd_trg.Veth.{Packet, ipproto_udp, portnum, xmit_all, vnet_get_stats}
use l3_dd_trg.Veth.Counts.{fresh, count_ours, length_ours, ShortPorts, vnet_get_stats-xmit_all}

-- What the system answers: the program runs as root, it has a socket, the socket is bound to the
-- interface, and which of its datagrams can be sent.
pub record System : Type 0 where
  pub is_root : Bool
  pub socket : Bool
  pub setsockopt : Bool
  pub sendto : ℕ → Bool

-- `htons`, and what the network layers make of a message for a port: the packets, with the headers, that
-- they give to the driver.
module _ (htons : ℕ → ℕ) (network : ℕ → List ℕ → List Packet) where
  -- `send_pkt`, where `sendto` succeeds.
  abbrev pub send_pkt : List ℕ → List Packet
  send_pkt msg = network (htons portnum) msg

  -- The loop of `main` with `left` rounds to go, the next of them the i-th: whether all datagrams
  -- were sent, and those that were.
  send_all : (ℕ → Bool) → List ℕ → ℕ → ℕ → Bool × List Packet
  send_all sendto msg zero i = (true, [])
  send_all sendto msg (suc left) i =
      let rest = send_all sendto msg left (suc i) in
      if sendto i then (rest.0, send_pkt msg ++ rest.1) else (false, [])

  -- `main`: the exit status and the packets that reach the driver.
  unfoldable pub talker : System → ℕ → List ℕ → List ℕ → ℕ × List Packet
  unfolding send_all
  talker s argc msg number =
      let sent = send_all s.sendto msg (pos_part (atoi number)) 0 in
      if not s.is_root
      then (1, [])
      else if not (argc == 4)
      then (1, [])
      else if not s.socket
      then (1, [])
      else if not s.setsockopt
      then (1, [])
      else (if sent.0 then 0 else 1, sent.1)

  -- the packets of a message that is sent so many times
  abbrev packets : List ℕ → ℕ → List Packet
  packets msg zero = []
  packets msg (suc n) = send_pkt msg ++ packets msg n

  send_all-sent :
      (sendto : ℕ → Bool) (msg : List ℕ) (left i : ℕ)
      → ((j : ℕ) → sendto j ≡ true)
      → send_all sendto msg left i ≡ (true, packets msg left)
  unfolding send_all
  send_all-sent sendto msg zero i all = refl
  send_all-sent sendto msg (suc left) i all =
      rw (all i) (ap (λ r. (r.0, send_pkt msg ++ r.1)) (send_all-sent sendto msg left (suc i) all))

  module _ (ntohs : ℕ → ℕ) (swap : (n : ℕ) → n < 2 ^ 16 → ntohs (ntohs n) ≡ n)
      (short : htons portnum < 2 ^ 16) (inverse : ntohs (htons portnum) ≡ portnum)
      (headers room : ℕ)
      (whole : (port : ℕ) (msg : List ℕ)
        → length msg ≤ room
        → network port msg
          ≡ record { protocol = ipproto_udp; dest = port; len = headers + length msg } ∷ [])
      (msg : List ℕ) (fits : length msg ≤ room) where
    packets_lem :
        (n : ℕ)
        → ShortPorts ntohs (packets msg n)
          × (count_ours ntohs (packets msg n) ≡ n)
          × (length_ours ntohs (packets msg n) ≡ n * (headers + length msg))
    packets_lem zero = (tt, refl, omega arith)
    packets_lem (suc n) =
        let ih = packets_lem n in
        let counted : count_ours ntohs (packets msg (suc n)) ≡ suc n =
          rw (whole (htons portnum) msg fits, inverse, ih.1) (omega arith) in
        let longer : length_ours ntohs (packets msg (suc n)) ≡ suc n * (headers + length msg) =
          rw (whole (htons portnum) msg fits, inverse, ih.2) (omega arith) in
        (rw (whole (htons portnum) msg fits) (short, ih.0), counted, longer)

    -- Over network layers that make one packet, of headers and message, of every message that is
    -- not longer than fits a packet of the interface: the program, run as root on the interface
    -- with such a message and a number n below 2^31 as its arguments, when every datagram can be
    -- sent, exits with 0, and the driver's statistics, fresh before, say that n packets were sent,
    -- of n times the length of message and headers, if that is below 2^31.
    pub talker-vnet_get_stats :
        (sendto : ℕ → Bool) (n : ℕ)
        → ((j : ℕ) → sendto j ≡ true)
        → n < 2 ^ 31
        → n * (headers + length msg) < 2 ^ 31
        → let s : System = record {
          is_root = true;
          socket = true;
          setsockopt = true;
          sendto = sendto;
        } in
          ((talker s 4 msg (print_int (pos n))).0 ≡ 0)
          × (vnet_get_stats (xmit_all ntohs fresh (talker s 4 msg (print_int (pos n))).1) ≡ record {
            rx_packets = 0;
            received_bytes = 0;
            tx_packets = n;
            sent_bytes = n * (headers + length msg);
          })
    unfolding talker
    talker-vnet_get_stats sendto n all small few =
        let many : atoi (print_int (pos n)) ≡ pos n = atoi-print_int (pos n) ∙ ground arith in
        let sent = send_all-sent sendto msg n 0 all in
        let p = packets_lem n in
        let stats =
          vnet_get_stats-xmit_all ntohs swap (packets msg n) p.0 (omega (arith, p.1))
            (omega (arith, p.2)) in
        (rw (many, sent) refl, rw (many, sent) (stats ∙ rw (p.1, p.2) refl))
