-- ===== src/Ioctl.antt =====
-- ioctl_kernel_poc/ioctl_kdrv.c and ioctl_kdrv.h: the ioctl method that keeps a power setting;
-- User has its test program.
pub mod Power
pub mod User
pub mod History
pub mod Module
mod Tests
use l3_dd_trg.Base.{
  ℕ, ◌+◌, ◌-◌, ◌*◌, ◌/◌, ◌%◌, ◌^◌, ◌≡◌, ◌≤◌, ◌<◌, Bool, true, false, Option, none, some, List, ltb,
  ◌==◌, not, if◌then◌else◌,
}
use l3_dd_trg.Base.Int.{ℤ, pos, negsuc, to_int, eperm, enotty}
use l3_dd_trg.Base.Ledger.{Answer, code}

-- The macros of asm/ioctl.h that the driver uses, for a command without an argument and for one
-- that reads or writes an `int`; a machine's `type` and `number` are of 8 bits.
pub record IoctlMacros : Type 0 where
  pub io : ℕ → ℕ → ℕ
  pub ior_int : ℕ → ℕ → ℕ
  pub iow_int : ℕ → ℕ → ℕ
  pub ioc_type : ℕ → ℕ
  pub ioc_nr : ℕ → ℕ
  pub io_lem : (t n : ℕ) → t < 2 ^ 8 → n < 2 ^ 8 → (ioc_type (io t n) ≡ t) × (ioc_nr (io t n) ≡ n)
  pub ior_lem :
      (t n : ℕ) → t < 2 ^ 8 → n < 2 ^ 8 → (ioc_type (ior_int t n) ≡ t) × (ioc_nr (ior_int t n) ≡ n)
  pub iow_lem :
      (t n : ℕ) → t < 2 ^ 8 → n < 2 ^ 8 → (ioc_type (iow_int t n) ≡ t) × (ioc_nr (iow_int t n) ≡ n)

-- IOCTL_KDRV_MAGIC and IOCTL_KDRV_MAXIOCTL
abbrev pub magic : ℕ
magic = 0x88

abbrev max_ioctl : ℕ
max_ioctl = 3

-- The kernel's answers: `capable(CAP_SYS_ADMIN)` and `__put_user`.
pub record Kernel : Type 0 where
  pub capable : Bool
  pub put_user : Answer

-- What a call comes to: its result, `power`, and the value given to `__put_user`.
pub record Called : Type 0 where
  pub ret : ℤ
  pub power : ℤ
  pub put : Option ℤ

module _ (x : IoctlMacros) where
  -- IOCTL_KDRV_IOCRESET, IOCTL_KDRV_IOCQPOWER, IOCTL_KDRV_IOCSPOWER
  abbrev pub ioc_reset : ℕ
  ioc_reset = x.io magic 0

  abbrev pub ioc_query_power : ℕ
  ioc_query_power = x.ior_int magic 1

  abbrev pub ioc_set_power : ℕ
  ioc_set_power = x.iow_int magic 2

  -- `iok_ioctl`, with the module's `power` and the call's `cmd` and `arg`.
  unfoldable pub iok_ioctl : Kernel → ℤ → ℕ → ℕ → Called
  iok_ioctl k power cmd arg =
      let refused : Called = record { ret = enotty; power = power; put = none } in
      if not (x.ioc_type cmd == magic)
      then refused
      else if ltb max_ioctl (x.ioc_nr cmd)
      then refused
      else if cmd == ioc_reset
      then record { ret = pos 0; power = power; put = none }
      else if cmd == ioc_query_power
      then (if k.capable
          then record { ret = code k.put_user; power = power; put = some power }
          else record { ret = eperm; power = power; put = none })
      else if cmd == ioc_set_power
      then (if k.capable
          then record { ret = pos 0; power = to_int arg; put = none }
          else record { ret = eperm; power = power; put = none })
      else refused
