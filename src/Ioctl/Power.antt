-- ===== src/Ioctl/Power.antt =====
-- Who changes and who sees the power setting of ioctl_kdrv.c.
use l3_dd_trg.Base.{
  ℕ, ◌≡◌, ◌≢◌, true, false, ◌==◌, none, some, arith, ap, ◌∙◌, sym, ne→not-==, ==_refl,
}
use l3_dd_trg.Base.Int.{ℤ, to_int}
use l3_dd_trg.Base.Ledger.{code}
use l3_dd_trg.Ioctl.{
  IoctlMacros, magic, Kernel, ioc_reset, ioc_query_power, ioc_set_power, iok_ioctl,
}

-- The three commands are apart, as their numbers are.
apart : (x : IoctlMacros) {a b m n : ℕ} → x.ioc_nr a ≡ m → x.ioc_nr b ≡ n → m ≢ n → a ≢ b
apart x h k ne e = ne (sym h ∙ ap x.ioc_nr e ∙ k)

-- The driver knows a query by its type and its number, and takes it for no other command.
pub query_apart :
    (x : IoctlMacros)
    → (x.ioc_type (ioc_query_power x) ≡ magic)
      × (x.ioc_nr (ioc_query_power x) ≡ 1)
      × ((ioc_query_power x == ioc_reset x) ≡ false)
query_apart x =
    let reset = x.io_lem magic 0 (omega arith) (omega arith) in
    let query = x.ior_lem magic 1 (omega arith) (omega arith) in
    (query.0, query.1, ne→not-== _ _ (apart x query.1 reset.1 (omega arith)))

-- So it does a setting of the power.
pub set_apart :
    (x : IoctlMacros)
    → (x.ioc_type (ioc_set_power x) ≡ magic)
      × (x.ioc_nr (ioc_set_power x) ≡ 2)
      × ((ioc_set_power x == ioc_reset x) ≡ false)
      × ((ioc_set_power x == ioc_query_power x) ≡ false)
set_apart x =
    let reset = x.io_lem magic 0 (omega arith) (omega arith) in
    let query = x.ior_lem magic 1 (omega arith) (omega arith) in
    let set = x.iow_lem magic 2 (omega arith) (omega arith) in
    (
      set.0,
      set.1,
      ne→not-== _ _ (apart x set.1 reset.1 (omega arith)),
      ne→not-== _ _ (apart x set.1 query.1 (omega arith)),
    )

module _ (x : IoctlMacros) (k : Kernel) (power : ℤ) where
  -- The setting is changed by a privileged IOCTL_KDRV_IOCSPOWER and by nothing else, and given to
  -- the user by a privileged IOCTL_KDRV_IOCQPOWER and by nothing else.
  pub iok_ioctl-privileged :
      (cmd arg : ℕ)
      → ((iok_ioctl x k power cmd arg).power ≢ power → (cmd ≡ ioc_set_power x) × (k.capable ≡ true))
        × ((iok_ioctl x k power cmd arg).put ≢ none
            → (cmd ≡ ioc_query_power x) × (k.capable ≡ true))
  unfolding iok_ioctl
  iok_ioctl-privileged cmd arg = (ground arith, ground arith)

  -- A privileged query after a privileged set gives the user the value that was set, as an `int`,
  -- and leaves it set; the query's result is that of `__put_user`.
  pub query-set_power :
      (other : Kernel) (arg ignored : ℕ)
      → k.capable ≡ true
      → other.capable ≡ true
      → (iok_ioctl x other
          (iok_ioctl x k power (ioc_set_power x) arg).power
          (ioc_query_power x)
          ignored)
        ≡ record { ret = code other.put_user; power = to_int arg; put = some (to_int arg) }
  unfolding iok_ioctl
  query-set_power other arg ignored c d =
      let query = query_apart x in
      let set = set_apart x in
      rw (
        set.0,
        set.1,
        set.2,
        set.3,
        query.0,
        query.1,
        query.2,
        ==_refl (ioc_set_power x),
        ==_refl (ioc_query_power x),
        c,
        d,
      )
