-- ===== src/Ioctl/Module.antt =====
-- `ioctl_kdrv_init_module` and `ioctl_kdrv_cleanup_module` of ioctl_kdrv.c: the major number.
use l3_dd_trg.Base.{ℕ, ◌<◌, ◌≡◌, ◌≢◌, true, ◌==◌, arith, if◌then◌else◌}
use l3_dd_trg.Base.Int.{ℤ, pos, pos_part, is_negative}

-- A module parameter says which major number is asked for, 0 for any; `register_chrdev` answers with
-- the number if any was asked for, with 0 for one that is given, and with an error otherwise.
abbrev IsRegistered : ℕ → ℕ → ℤ → Type 0
IsRegistered asked major answer =
    (asked ≡ 0 → (answer ≡ pos major) × (0 < major))
    × (asked ≢ 0 → (answer ≡ pos 0) × (major ≡ asked))

-- The result, and `iok_major` afterwards.
unfoldable ioctl_kdrv_init_module : ℕ → ℤ → ℤ × ℕ
ioctl_kdrv_init_module iok_major result =
    if is_negative result
    then (result, iok_major)
    else (pos 0, if iok_major == 0 then pos_part result else iok_major)

-- The major number that is given back.
unfoldable ioctl_kdrv_cleanup_module : ℕ → ℕ
ioctl_kdrv_cleanup_module iok_major = iok_major

-- Whichever major number is asked for: if the kernel registers one, the load returns 0 and the
-- unload gives back that number; if not, the load returns the kernel's error.
cleanup-init :
    (asked major : ℕ) (answer : ℤ)
    → (IsRegistered asked major answer
        → ((ioctl_kdrv_init_module asked answer).0 ≡ pos 0)
          × (ioctl_kdrv_cleanup_module (ioctl_kdrv_init_module asked answer).1 ≡ major))
      × (is_negative answer ≡ true → (ioctl_kdrv_init_module asked answer).0 ≡ answer)
unfolding ioctl_kdrv_init_module ioctl_kdrv_cleanup_module
cleanup-init asked major answer = (λ r. ground arith, ground arith)
