-- ===== src/Veth.antt =====
-- netdrv_veth/netdriver/veth_netdrv.c, the virtual network interface: its transmit method, its
-- counters, its setup and teardown, its probe, and the programs that send to it and receive.
pub mod Counts
pub mod Setup
pub mod Probe
pub mod Talker
pub mod Listener
pub mod Parallel
pub mod Carrier
mod Tests
use l3_dd_trg.Base.{
  ℕ, ◌+◌, ◌-◌, ◌%◌, ◌^◌, Bool, true, false, Option, none, some, List, [], ◌∷◌, ltb, ◌==◌, ◌&&◌,
  if◌then◌else◌,
}
use l3_dd_trg.Base.Int.{ℤ, pos, negsuc}

-- `struct stVnetIntfCtx`, less the lock, and `tx_pkt_count`: patterns of 32 bits.
pub record Counters : Type 0 where
  pub tx_pkt_count : ℕ
  pub txpktnum : ℕ
  pub rxpktnum : ℕ
  pub tx_bytes : ℕ
  pub rx_bytes : ℕ

-- What the driver reads of a `struct sk_buff`; `dest` is in the order of the network's bytes.
pub record Packet : Type 0 where
  pub protocol : ℕ
  pub dest : ℕ
  pub len : ℕ

-- IPPROTO_UDP and PORTNUM
abbrev pub ipproto_udp : ℕ
ipproto_udp = 17

abbrev pub portnum : ℕ
portnum = 54295

-- an `int` that becomes an `unsigned long`
abbrev to_ulong : ℕ → ℕ
to_ulong w = if ltb w (2 ^ 31) then w else w + 2 ^ 64 - 2 ^ 32

-- -EAGAIN
abbrev eagain : ℤ
eagain = negsuc 10

module _ (ntohs : ℕ → ℕ) where
  -- The result, the counters, and whether the packet is freed; `none` is NULL.
  unfoldable pub vnet_start_xmit : Counters → Option Packet → ℤ × Counters × Bool
  vnet_start_xmit c none = (eagain, c, false)
  vnet_start_xmit c (some skb) =
      let count = (c.tx_pkt_count + 1) % 2 ^ 32 in
      let counted = record c {
        tx_pkt_count = count;
        txpktnum = count;
        tx_bytes = (c.tx_bytes + skb.len) % 2 ^ 32;
      } in
      if skb.protocol == ipproto_udp
      then (if skb.dest == ntohs portnum then (pos 0, counted, true) else (pos 0, c, true))
      else (pos 0, c, true)

  -- The counters after the packets, one after another.
  unfoldable pub xmit_all : Counters → List Packet → Counters
  xmit_all c [] = c
  xmit_all c (skb ∷ skbs) = xmit_all (vnet_start_xmit c (some skb)).1 skbs

-- `ndstats`: the packets and bytes received, then those sent.
pub record Stats : Type 0 where
  pub rx_packets : ℕ
  pub received_bytes : ℕ
  pub tx_packets : ℕ
  pub sent_bytes : ℕ

unfoldable pub vnet_get_stats : Counters → Stats
vnet_get_stats c = record {
  rx_packets = to_ulong c.rxpktnum;
  received_bytes = to_ulong c.rx_bytes;
  tx_packets = to_ulong c.txpktnum;
  sent_bytes = to_ulong c.tx_bytes;
}
