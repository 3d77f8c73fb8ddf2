-- ===== src/Sleepy/Module.antt =====
-- `miscdrv_rdwr_init` and `miscdrv_rdwr_exit` of sleepy_waitq/slpy.c on the ledger of resources.
use l3_dd_trg.Base.{ℕ, ◌≡◌, ◌≢◌, some, List, [], ◌∷◌, ◌++◌, arith}
use l3_dd_trg.Base.Int.{pos, negsuc}
use l3_dd_trg.Base.Ledger.{
  Answer, succeeded, failed, code, Resource, Event, acquire, release, Outcome, done, ◌▸◌, replay,
}

pub data Held : Type 0 where
  slpy_miscdev : Held

abbrev tag : Held → ℕ
tag slpy_miscdev = 0

pub tag_injective : (a b : Held) → tag a ≡ tag b → a ≡ b
tag_injective a b h = ground arith

instance abbrev pub held_resource : Resource Held
held_resource = record { tag = tag; tag_injective = tag_injective }

-- The answer is that of `misc_register`.
unfoldable miscdrv_rdwr_init : Answer → Outcome Held
miscdrv_rdwr_init (failed e) = done (negsuc e) []
miscdrv_rdwr_init succeeded = acquire slpy_miscdev ▸ done (pos 0) []

unfoldable miscdrv_rdwr_exit : List (Event Held)
miscdrv_rdwr_exit = release slpy_miscdev ∷ []

-- A load returns what misc_register answers; if that is an error it holds nothing, and if not, the
-- unload gives back all that it holds.
miscdrv_rdwr_exit-init :
    (a : Answer)
    → ((miscdrv_rdwr_init a).ret ≡ code a)
      × (code a ≢ pos 0 → replay (miscdrv_rdwr_init a).events [] ≡ some [])
      × (code a ≡ pos 0 → replay ((miscdrv_rdwr_init a).events ++ miscdrv_rdwr_exit) [] ≡ some [])
unfolding miscdrv_rdwr_init miscdrv_rdwr_exit
miscdrv_rdwr_exit-init a = (ground arith, ground arith, ground arith)
