-- ===== src/Veth/Carrier.antt =====
-- `vnet_open` and `vnet_stop` of veth_netdrv.c.
use l3_dd_trg.Base.{◌≡◌, refl, Bool, true, false}
use l3_dd_trg.Base.Int.{ℤ, pos}

-- Whether the interface has its carrier, and whether its queue takes packets.
pub record Carrier : Type 0 where
  pub carrier_on : Bool
  pub queue_started : Bool

unfoldable vnet_open : Carrier → ℤ × Carrier
vnet_open c = (pos 0, record { carrier_on = true; queue_started = true })

unfoldable vnet_stop : Carrier → ℤ × Carrier
vnet_stop c = (pos 0, record { carrier_on = false; queue_started = false })

-- Both always succeed, and either undoes the other, however often they were called before: what counts
-- is the last call.
vnet_open-vnet_stop :
    (c : Carrier)
    → ((vnet_open (vnet_stop c).1).1 ≡ (vnet_open c).1)
      × ((vnet_stop (vnet_open c).1).1 ≡ (vnet_stop c).1)
      × ((vnet_open c).0 ≡ (vnet_stop c).0)
unfolding vnet_open vnet_stop
vnet_open-vnet_stop c = (refl, refl, refl)
