-- ===== src/Ioctl/User.antt =====
-- How ioctl_kdrv.c is opened and registered, and its user, ioctl_user_test.c, which flips the power
-- setting.
use l3_dd_trg.Base.{
  ℕ, ◌≡◌, refl, Option, none, some, ltb, ◌==◌, not, ◌||◌, if◌then◌else◌, ==_refl, arith,
}
use l3_dd_trg.Base.Int.{ℤ, pos, is_negative, is_zero, to_int, eperm, enxio}
use l3_dd_trg.Base.Ledger.{code}
use l3_dd_trg.Ioctl.{
  IoctlMacros, magic, Kernel, ioc_reset, ioc_query_power, ioc_set_power, iok_ioctl,
}
use l3_dd_trg.Ioctl.Power.{query_apart, set_apart}

-- `iok_open`: only the minor number 0 is given the ioctl method.
unfoldable pub iok_open : ℕ → ℤ
iok_open minor = if minor == 0 then pos 0 else enxio

-- What `__put_user` stored, or what the stack had.
abbrev stored : ℤ → Option ℤ → ℤ
stored stack none = stack
stored stack (some v) = v

module _ (x : IoctlMacros) (k : Kernel) where
  -- From the test of the device's power on: the exit status and the driver's power setting.
  switch_power : ℤ → ℤ → ℕ × ℤ
  switch_power shown power =
      let set = iok_ioctl x k power (ioc_set_power x) (if is_zero shown then 1 else 0) in
      (if is_negative set.ret then 1 else 0, set.power)

  query_power : ℕ → ℤ → ℤ → ℕ × ℤ
  unfolding switch_power
  query_power address stack power =
      let query = iok_ioctl x k power (ioc_query_power x) address in
      let go_on = switch_power (stored stack query.put) query.power in
      if is_negative query.ret then (1, query.power) else go_on

  -- `main`, with its `argc`, the minor number of the device file, the address of its variable
  -- `power` and what that holds.
  unfoldable pub user_test : ℕ → ℕ → ℕ → ℤ → ℤ → ℕ × ℤ
  unfolding query_power
  user_test argc minor address stack power =
      let reset = iok_ioctl x k power (ioc_reset x) 0 in
      let go_on = query_power address stack reset.power in
      if ltb argc 2
      then (1, power)
      else if is_negative (iok_open minor)
      then (1, power)
      else if is_negative reset.ret
      then (1, reset.power)
      else go_on

  reset_lem :
      (power : ℤ) (arg : ℕ)
      → iok_ioctl x k power (ioc_reset x) arg ≡ record { ret = pos 0; power = power; put = none }
  unfolding iok_ioctl
  reset_lem power arg =
      let reset = x.io_lem magic 0 (omega arith) (omega arith) in
      rw (reset.0, reset.1, ==_refl (ioc_reset x)) refl

  query_lem :
      (power : ℤ) (arg : ℕ)
      → iok_ioctl x k power (ioc_query_power x) arg ≡ (
          if k.capable
          then record { ret = code k.put_user; power = power; put = some power }
          else record { ret = eperm; power = power; put = none })
  unfolding iok_ioctl
  query_lem power arg =
      let query = query_apart x in rw (query.0, query.1, query.2, ==_refl (ioc_query_power x)) refl

  set_lem :
      (power : ℤ) (arg : ℕ)
      → iok_ioctl x k power (ioc_set_power x) arg ≡ (
          if k.capable
          then record { ret = pos 0; power = to_int arg; put = none }
          else record { ret = eperm; power = power; put = none })
  unfolding iok_ioctl
  set_lem power arg =
      let set = set_apart x in rw (set.0, set.1, set.2, set.3, ==_refl (ioc_set_power x)) refl

  -- The program, on a device file of any minor number, flips the power setting, from 0 to 1 and from
  -- anything else to 0, and exits with 0, exactly if it is given a device file of minor number 0, has
  -- the privilege and `__put_user` succeeds; it exits with 1 and leaves the setting otherwise.
  pub user_test_flips :
      (argc minor address : ℕ) (stack power : ℤ)
      → user_test argc minor address stack power ≡ (
          if ltb argc 2 || not (minor == 0) || not k.capable || is_negative (code k.put_user)
          then (1, power)
          else (0, if is_zero power then pos 1 else pos 0))
  unfolding user_test query_power iok_open
  user_test_flips argc minor address stack power = rw (reset_lem, query_lem, set_lem) (ground arith)
