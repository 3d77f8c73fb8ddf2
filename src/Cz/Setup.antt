-- ===== src/Cz/Setup.antt =====
-- `cz_init_module` and `cz_cleanup_module`, which cz_enh_miscdrv.c and cz_miscdrv.c share, on the
-- ledger of resources.
use l3_dd_trg.Base.{ℕ, ◌≡◌, ◌≢◌, some, List, [], ◌∷◌, ◌++◌, arith}
use l3_dd_trg.Base.Int.{pos, negsuc}
use l3_dd_trg.Base.Ledger.{
  Answer, succeeded, failed, Resource, Event, acquire, release, Outcome, done, ◌▸◌, replay,
}

-- The two misc devices.
pub data Held : Type 0 where
  czero cnul : Held

abbrev tag : Held → ℕ
tag czero = 0
tag cnul = 1

pub tag_injective : (a b : Held) → tag a ≡ tag b → a ≡ b
tag_injective a b h = ground arith

instance abbrev pub held_resource : Resource Held
held_resource = record { tag = tag; tag_injective = tag_injective }

-- With the answers of the two calls of `misc_register`.
unfoldable pub cz_init_module : Answer → Answer → Outcome Held
cz_init_module (failed e) second = done (negsuc e) []
cz_init_module (succeeded) (failed e) = acquire czero ▸ done (negsuc e) []
cz_init_module (succeeded) (succeeded) = acquire czero ▸ (acquire cnul ▸ done (pos 0) [])

unfoldable pub cz_cleanup_module : List (Event Held)
cz_cleanup_module = release cnul ∷ release czero ∷ []

-- After a load that returns 0 the teardown releases everything. A load that fails keeps the zero
-- device registered exactly if its registration succeeded.
cz_init_module_lem :
    (first second : Answer)
    → ((cz_init_module first second).ret ≡ pos 0
        → replay ((cz_init_module first second).events ++ cz_cleanup_module) [] ≡ some [])
      × ((cz_init_module first second).ret ≢ pos 0
          → replay (cz_init_module first second).events []
            ≡ some (elim first [ succeeded ↦ czero ∷ [] | failed e ↦ [] ]))
unfolding cz_init_module cz_cleanup_module
cz_init_module_lem first second = (ground arith, ground arith)
