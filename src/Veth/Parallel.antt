-- ===== src/Veth/Parallel.antt =====
-- Several senders in `vnet_start_xmit` of veth_netdrv.c at once, each with a packet for the driver's
-- port: from the lock to the unlock, a load or a store of a counter at a time.
pub mod Locked
pub mod Progress
pub mod Together
pub mod Fair
pub mod Snapshot
use l3_dd_trg.Base.{ℕ, zero, suc, ◌+◌, ◌%◌, ◌^◌, Option, none, some, List, [], ◌∷◌, get_or, set}
use l3_dd_trg.Veth.{Counters}

-- Where a sender stands: at the lock, behind it, with the loaded number of packets or of bytes,
-- before the unlock, and behind that.
pub data Stage : Type 0 where
  waiting entered stored_count stored_bytes left : Stage
  loaded_count loaded_bytes : ℕ → Stage

-- `len` is that of the packet.
pub record Sender : Type 0 where
  pub len : ℕ
  pub stage : Stage

-- The counters, who holds the lock, and the senders.
pub record System : Type 0 where
  pub counters : Counters
  pub holder : Option ℕ
  pub senders : List Sender

-- The next step of the i-th sender, at this stage with a packet of this length. `spin_lock` goes on
-- only if the lock is free.
unfoldable pub vnet_xmit_step : Counters → Option ℕ → ℕ → ℕ → Stage → Counters × Option ℕ × Stage
vnet_xmit_step c none i len waiting = (c, some i, entered)
vnet_xmit_step c (some j) i len waiting = (c, some j, waiting)
vnet_xmit_step c h i len entered = (c, h, loaded_count c.tx_pkt_count)
vnet_xmit_step c h i len (loaded_count n) =
    let count = (n + 1) % 2 ^ 32 in
    (record c { tx_pkt_count = count; txpktnum = count }, h, stored_count)
vnet_xmit_step c h i len stored_count = (c, h, loaded_bytes c.tx_bytes)
vnet_xmit_step c h i len (loaded_bytes n) =
    (record c { tx_bytes = (n + len) % 2 ^ 32 }, h, stored_bytes)
vnet_xmit_step c h i len stored_bytes = (c, none, left)
vnet_xmit_step c h i len left = (c, h, left)

abbrev pub nobody : Sender
nobody = record { len = 0; stage = left }

abbrev pub sender_at : System → ℕ → Sender
sender_at s i = get_or s.senders i nobody

unfoldable pub step : System → ℕ → System
step s i =
    let sender = sender_at s i in
    let (c, h, g) = vnet_xmit_step s.counters s.holder i sender.len sender.stage in
    record { counters = c; holder = h; senders = set s.senders i (record sender { stage = g }) }

-- The senders move in this order.
unfoldable pub steps : System → List ℕ → System
steps s [] = s
steps s (i ∷ turns) = steps (step s i) turns
