-- ===== src/Sblkdev/Catalog/Any.antt =====
-- What blockdrv/sblkdev/main.c makes of any text as the module parameter `catalog`, also of one that no
-- list of entries prints.
use l3_dd_trg.Base.{Option, ◌==◌, if◌then◌else◌, ℕ, ◌+◌, ◌≡◌, refl, none, some, List, [], ◌∷◌, ◌++◌}
use l3_dd_trg.Base.Int.{ℤ, pos}
use l3_dd_trg.Base.Ledger.{Answer, succeeded, failed, code}
use l3_dd_trg.Sblkdev.Lifecycle.{sblkdev_add}
use l3_dd_trg.Sblkdev.Catalog.{
  split, Progress, Answers, Turn, next, break_with, added, turn, add_devices,
}
use l3_dd_trg.Sblkdev.Catalog.Listing.{Entry, device_of, listed}

-- What a token asks for: nothing, if it has no comma; a device; or one whose capacity is no number.
pub data Wish : Type 0 where
  nothing : Wish
  device : Entry → Wish
  garbled : ℕ → Wish

abbrev numbered : List ℕ → Answer × ℕ → Wish
numbered name r = elim r.0 [ failed e ↦ garbled e | succeeded ↦ device (name, r.1) ]

-- The text up to a separator, or all of it, and the text behind the first separator.
abbrev pub until : ℕ → List ℕ → List ℕ
until sep [] = []
until sep (c ∷ s) = let more = until sep s in if c == sep then [] else c ∷ more

abbrev pub behind : ℕ → List ℕ → Option (List ℕ)
behind sep [] = none
behind sep (c ∷ s) = let more = behind sep s in if c == sep then some s else more

abbrev wish : Answers → List ℕ → Wish
wish a token = elim (behind b',' token) [
  | none ↦ nothing
  | some more ↦ numbered (until b',' token) (a.kstrtoull (until b',' more))
]

pieces_behind : ℕ → Option (List ℕ) → List (List ℕ)
pieces_behind sep none = []
pieces_behind sep (some s) = split sep s

entry_of : List ℕ → Option (List ℕ) → Option (List ℕ × List ℕ)
entry_of token none = none
entry_of token (some more) = some (until b',' token, until b',' more)

-- The devices that are asked for before the first number that cannot be read, and what the load returns
-- for that number, or 0.
abbrev pub wanted : List Wish → List Entry
wanted [] = []
wanted (nothing ∷ ws) = wanted ws
wanted (device e ∷ ws) = e ∷ wanted ws
wanted (garbled n ∷ ws) = []

abbrev pub verdict : List Wish → ℤ
verdict [] = pos 0
verdict (garbled n ∷ ws) = code (failed n)
verdict (_ ∷ ws) = verdict ws

abbrev pub wishes : Answers → List (List ℕ) → List Wish
wishes a [] = []
wishes a (token ∷ tokens) = wish a token ∷ wishes a tokens

module _ (a : Answers) (adds : (i : ℕ) → (sblkdev_add a.config (a.adding i) i).ret ≡ pos 0) where
  -- What a turn of the loop comes to for each wish.
  turn_of : ℕ → Wish → Turn
  turn_of inx nothing = next
  turn_of inx (garbled e) = break_with (code (failed e)) []
  turn_of inx (device e) =
      added (device_of a inx e) (sblkdev_add a.config (a.adding inx) inx).events

  -- What the loop leaves for these tokens.
  abbrev Leaves : ℕ → Progress → List (List ℕ) → List Wish → Type 0
  Leaves inx p tokens ws =
      ((add_devices a inx p tokens).ret ≡ verdict ws)
      × ((add_devices a inx p tokens).devices ≡ listed a inx (wanted ws) p.devices)

  after_turn :
      (inx : ℕ) (p : Progress) (token : List ℕ) (tokens : List (List ℕ)) (w : Wish)
      → turn a inx token ≡ turn_of inx w
      → ((j : ℕ) (q : Progress) → q.ret ≡ pos 0 → Leaves j q tokens (wishes a tokens))
      → p.ret ≡ pos 0
      → Leaves inx p (token ∷ tokens) (w ∷ wishes a tokens)
  unfolding add_devices turn_of
  after_turn inx p token tokens nothing e ih z = rw (e, add_devices) (ih inx p z)
  after_turn inx p token tokens (garbled n) e ih z = rw (e, add_devices) (refl, refl)
  after_turn inx p token tokens (device d) e ih z =
      let q : Progress = record {
        ret = pos 0;
        devices = device_of a inx d ∷ p.devices;
        events = p.events ++ (sblkdev_add a.config (a.adding inx) inx).events;
      } in
      rw (e, add_devices) (ih (inx + 1) q refl)
