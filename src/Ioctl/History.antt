-- ===== src/Ioctl/History.antt =====
-- The power setting of ioctl_kdrv.c over any sequence of calls, and the module that serves them.
use l3_dd_trg.Base.{
  ℕ, ◌^◌, ◌<◌, ◌≤◌, ◌≡◌, ◌∙◌, refl, ap, Option, none, some, List, [], ◌∷◌, ◌==◌, ◌&&◌, arith,
  if◌then◌else◌,
}
use l3_dd_trg.Base.Int.{ℤ, pos_part, neg_part, to_int}
use l3_dd_trg.Base.Ledger.{Answer, succeeded, failed, code}
use l3_dd_trg.Ioctl.{IoctlMacros, Kernel, Called, ioc_set_power, iok_ioctl}
use l3_dd_trg.Ioctl.Power.{set_apart}

-- A call of the method, with the kernel's answers during it.
pub record Call : Type 0 where
  pub kernel : Kernel
  pub cmd : ℕ
  pub arg : ℕ

-- A value of C's `int`.
abbrev pub IsInt : ℤ → Type 0
IsInt z = (pos_part z < 2 ^ 31) × (neg_part z ≤ 2 ^ 31)

abbrev IsShown : Option ℤ → Type 0
IsShown none = Unit
IsShown (some z) = IsInt z

-- The result, the setting and what the user is given are all of type `int`.
abbrev IsTyped : Called → Type 0
IsTyped c = IsInt c.ret × IsInt c.power × IsShown c.put

abbrev pub AllTyped : List Called → Type 0
AllTyped [] = Unit
AllTyped (c ∷ cs) = IsTyped c × AllTyped cs

-- An error number that the kernel gives is small.
abbrev IsErrno : Answer → Type 0
IsErrno succeeded = Unit
IsErrno (failed e) = e < 4095

abbrev AllErrno : List Call → Type 0
AllErrno [] = Unit
AllErrno (c ∷ cs) = IsErrno c.kernel.put_user × AllErrno cs

module _ (x : IoctlMacros) where
  -- What the calls come to, one after the other.
  abbrev pub serve_all : List Call → ℤ → List Called
  serve_all [] power = []
  serve_all (c ∷ cs) power =
      let called = iok_ioctl x c.kernel power c.cmd c.arg in called ∷ serve_all cs called.power

  -- The setting after them.
  abbrev pub left_set : List Call → ℤ → ℤ
  left_set [] power = power
  left_set (c ∷ cs) power = left_set cs (iok_ioctl x c.kernel power c.cmd c.arg).power

  -- The argument of the last privileged IOCTL_KDRV_IOCSPOWER, if there is one.
  abbrev pub last_set : List Call → ℤ → ℤ
  last_set [] power = power
  last_set (c ∷ cs) power =
      last_set cs (if c.kernel.capable && (c.cmd == ioc_set_power x) then to_int c.arg else power)

  to_int-IsInt : (n : ℕ) → IsInt (to_int n)
  to_int-IsInt n = ground arith

  code-IsInt : (a : Answer) → IsErrno a → IsInt (code a)
  code-IsInt succeeded h = omega arith
  code-IsInt (failed e) h = omega arith

  iok_ioctl-IsTyped :
      (k : Kernel) (power : ℤ) (cmd arg : ℕ)
      → IsErrno k.put_user
      → IsInt power
      → IsTyped (iok_ioctl x k power cmd arg)
  unfolding iok_ioctl
  iok_ioctl-IsTyped k power cmd arg small int =
      ground (arith, to_int-IsInt arg, code-IsInt k.put_user small)

  iok_ioctl-power :
      (k : Kernel) (power : ℤ) (cmd arg : ℕ)
      → (iok_ioctl x k power cmd arg).power
        ≡ (if k.capable && (cmd == ioc_set_power x) then to_int arg else power)
  unfolding iok_ioctl
  iok_ioctl-power k power cmd arg = ground (arith, set_apart x)

  -- Any sequence of calls, from a setting of type int, when the error numbers of __put_user are small:
  -- every result, every setting and all that a user is given are of type int, and the setting at the
  -- end is the argument of the last privileged IOCTL_KDRV_IOCSPOWER, as an int, or the one at the
  -- start if there is none.
  pub serve_all-IsTyped :
      (calls : List Call) (power : ℤ)
      → AllErrno calls
      → IsInt power
      → AllTyped (serve_all calls power)
        × IsInt (left_set calls power)
        × (left_set calls power ≡ last_set calls power)
  serve_all-IsTyped [] power small int = (tt, int, refl)
  serve_all-IsTyped (c ∷ cs) power small int =
      let typed = iok_ioctl-IsTyped c.kernel power c.cmd c.arg small.0 int in
      let set = iok_ioctl-power c.kernel power c.cmd c.arg in
      let rest =
        serve_all-IsTyped cs (iok_ioctl x c.kernel power c.cmd c.arg).power small.1 typed.1 in
      ((typed, rest.0), rest.1, rest.2 ∙ ap (last_set cs) set)
