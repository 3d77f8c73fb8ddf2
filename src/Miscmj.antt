-- ===== src/Miscmj.antt =====
-- miscmj_chardrv/miscmj_cdrv.c: a character device of the misc class whose methods only log.
use l3_dd_trg.Base.{ℕ, ◌^◌, ◌<◌, ◌≡◌, ◌≢◌, some, List, [], ◌∷◌, ◌++◌, arith}
use l3_dd_trg.Base.Int.{ℤ, pos, negsuc, to_ssize}
use l3_dd_trg.Base.Ledger.{
  Answer, succeeded, failed, code, Resource, Event, acquire, release, Outcome, done, ◌▸◌, replay,
}

unfoldable my_dev_open : ℤ
my_dev_open = pos 0

unfoldable my_dev_close : ℤ
my_dev_close = pos 0

-- The result, and the user's buffer.
unfoldable my_dev_read : List ℕ → ℕ → ℤ × List ℕ
my_dev_read buf count = (to_ssize count, buf)

unfoldable my_dev_write : List ℕ → ℕ → ℤ
my_dev_write buf count = to_ssize count

unfoldable my_dev_ioctl : ℕ → ℕ → ℤ
my_dev_ioctl cmd arg = pos 0

pub data Held : Type 0 where
  my_miscdevice : Held

abbrev tag : Held → ℕ
tag my_miscdevice = 0

pub tag_injective : (a b : Held) → tag a ≡ tag b → a ≡ b
tag_injective a b h = ground arith

instance abbrev pub held_resource : Resource Held
held_resource = record { tag = tag; tag_injective = tag_injective }

-- The answer is that of `misc_register`.
unfoldable miscdrv_init : Answer → Outcome Held
miscdrv_init (failed e) = done (negsuc e) []
miscdrv_init succeeded = acquire my_miscdevice ▸ done (pos 0) []

unfoldable miscdrv_exit : List (Event Held)
miscdrv_exit = release my_miscdevice ∷ []

-- For a count below 2^63, a read and a write both claim the whole count, and a read leaves the user's
-- buffer as it was.
my_dev_read-my_dev_write :
    (buf : List ℕ) (count : ℕ)
    → count < 2 ^ 63
    → (my_dev_read buf count ≡ (pos count, buf)) × (my_dev_write buf count ≡ pos count)
unfolding my_dev_read my_dev_write
my_dev_read-my_dev_write buf count h = (ground arith, ground arith)

-- A load returns what misc_register answers; if that is an error it holds nothing, and if not, the
-- unload gives back all that it holds.
miscdrv_exit-miscdrv_init :
    (a : Answer)
    → ((miscdrv_init a).ret ≡ code a)
      × (code a ≢ pos 0 → replay (miscdrv_init a).events [] ≡ some [])
      × (code a ≡ pos 0 → replay ((miscdrv_init a).events ++ miscdrv_exit) [] ≡ some [])
unfolding miscdrv_init miscdrv_exit
miscdrv_exit-miscdrv_init a = (ground arith, ground arith, ground arith)
