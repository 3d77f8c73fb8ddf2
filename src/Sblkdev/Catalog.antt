-- ===== src/Sblkdev/Catalog.antt =====
-- blockdrv/sblkdev/main.c: the module parameter `catalog`, "<name>,<capacity>;...", and the setup
-- and teardown of the module.
pub mod Split
pub mod Listing
pub mod Any
pub mod Setup
pub mod Failed
mod Tests
use l3_dd_trg.Base.{
  ℕ, ◌+◌, ◌≡◌, Bool, Option, none, some, List, [], ◌∷◌, ◌++◌, ◌==◌, leb, ltb, length, if◌then◌else◌,
  ◌||◌,
}
use l3_dd_trg.Base.Int.{ℤ, pos, pos_part, is_nonpositive, is_zero, ebusy, einval, enomem}
use l3_dd_trg.Base.Ledger.{Answer, succeeded, failed, code, Event, acquire, release, Outcome, done}
use l3_dd_trg.Sblkdev.Naming.{Gendisk, describe_disk}
use l3_dd_trg.Sblkdev.Lifecycle.{Held, major, catalog, Config, Kernel, sblkdev_add, sblkdev_remove}

-- The pieces that repeated `strsep(&s, sep)` returns, the empty ones too.
abbrev pub cons_first : ℕ → List (List ℕ) → List (List ℕ)
cons_first c [] = (c ∷ []) ∷ []
cons_first c (piece ∷ pieces) = (c ∷ piece) ∷ pieces

unfoldable pub split : ℕ → List ℕ → List (List ℕ)
split sep [] = [] ∷ []
split sep (c ∷ s) =
    let pieces = split sep s in if c == sep then [] ∷ pieces else cons_first c pieces

-- The first two pieces of a token.
abbrev pub first_two : List (List ℕ) → Option (List ℕ × List ℕ)
first_two [] = none
first_two (name ∷ []) = none
first_two (name ∷ capacity ∷ more) = some (name, capacity)

-- One token: its name and its capacity, if it has a comma; a third piece is not read.
unfoldable pub entry : List ℕ → Option (List ℕ × List ℕ)
unfolding split
entry token = first_two (split b',' token)

-- A device on `sblkdev_device_list`, and its disk as `sblkdev_add` describes it to the kernel: `none` if
-- `sprintf` overruns the disk's name or reads an argument that is not there. What that does to the
-- rest of the memory is not modelled.
pub record Added : Type 0 where
  pub minor : ℕ
  pub disk : Option Gendisk
  pub capacity : ℕ

-- `sblkdev_init` while it runs: `devices` is the list, the newest first.
pub record Progress : Type 0 where
  pub ret : ℤ
  pub devices : List Added
  pub events : List (Event Held)

-- The kernel's answers: of `kstrtoull(s, 10, …)` the value or the error number, and of the calls
-- in `sblkdev_add` for each minor number; `gendisk` is a disk as they allocate it.
pub record Answers : Type 1 where
  pub config : Config
  pub register_blkdev : ℤ
  pub page_size : ℕ
  pub kzalloc : Bool
  pub kstrtoull : List ℕ → Answer × ℕ
  pub adding : ℕ → Kernel
  pub gendisk : Gendisk

-- What one turn of the loop comes to: `continue`, `break` with `ret`, or a new device.
pub data Turn : Type 0 where
  next : Turn
  break_with : ℤ → List (Event Held) → Turn
  added : Added → List (Event Held) → Turn

module _ (a : Answers) where
  unfoldable pub add_one : ℕ → List ℕ → ℕ → Turn
  add_one inx name capacity =
      let o = sblkdev_add a.config (a.adding inx) inx in
      let disk = describe_disk (pos_part a.register_blkdev) inx name capacity a.gendisk in
      if is_zero o.ret
      then added (record { minor = inx; disk = disk; capacity = capacity }) o.events
      else break_with o.ret o.events

  unfoldable pub turn : ℕ → List ℕ → Turn
  unfolding entry add_one
  turn inx token = elim (entry token) [
    | none ↦ next
    | some (name, capacity) ↦
        let (ret, value) = a.kstrtoull capacity in
        elim ret [ failed e ↦ break_with (code (failed e)) [] | succeeded ↦ add_one inx name value ]
  ]

  -- The `while` loop over the tokens, with `inx` devices added so far.
  unfoldable pub add_devices : ℕ → Progress → List (List ℕ) → Progress
  add_devices inx p [] = p
  add_devices inx p (token ∷ tokens) = elim (turn inx token) [
    | next ↦ add_devices inx p tokens
    | break_with ret events ↦ record p { ret = ret; events = p.events ++ events }
    | added d events ↦
        add_devices (inx + 1)
          (record { ret = pos 0; devices = d ∷ p.devices; events = p.events ++ events }) tokens
  ]

  -- From the copy of the catalog on.
  unfoldable pub read_catalog : List ℕ → Progress
  unfolding add_devices
  read_catalog text =
      let p =
        add_devices 0
          (record { ret = pos 0; devices = []; events = acquire major ∷ acquire catalog ∷ [] })
          (split b';' text) in
      let freed = p.events ++ release catalog ∷ [] in
      if is_zero p.ret
      then record p { events = freed }
      else record p { events = freed ++ release major ∷ [] }

  unfoldable pub sblkdev_init : List ℕ → Progress
  unfolding read_catalog
  sblkdev_init text =
      let fail_unregister = acquire major ∷ release major ∷ [] in
      if is_nonpositive a.register_blkdev
      then record { ret = ebusy; devices = []; events = [] }
      else if ltb (length text) 1 || ltb a.page_size (length text)
      then record { ret = einval; devices = []; events = fail_unregister }
      else if a.kzalloc
      then read_catalog text
      else record { ret = enomem; devices = []; events = fail_unregister }

  -- `sblkdev_exit`: every device of the list is removed, then the major number.
  unfoldable pub sblkdev_exit : List Added → List (Event Held)
  sblkdev_exit [] = if is_nonpositive a.register_blkdev then [] else release major ∷ []
  sblkdev_exit (d ∷ ds) = sblkdev_remove a.config d.minor ++ sblkdev_exit ds
