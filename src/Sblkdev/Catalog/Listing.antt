-- ===== src/Sblkdev/Catalog/Listing.antt =====
-- A catalog that lists devices, and the devices that blockdrv/sblkdev/main.c adds for it.
use l3_dd_trg.Base.{
  map, sym, ℕ, ◌+◌, ◌≤◌, ◌<◌, ◌^◌, ◌≡◌, ◌⊎◌, inl, inr, refl, ap, ◌∙◌, true, false, Option, some,
  none, List, [], ◌∷◌, ◌++◌, length, length-append, arith,
}
use l3_dd_trg.Base.Int.{pos, pos_part, is_nonpositive}
use l3_dd_trg.Base.Decimal.{print_nat, AllDigits, print_nat-AllDigits}
use l3_dd_trg.Base.Ledger.{Answer, succeeded, failed, code, acquire}
use l3_dd_trg.Base.Text.{text_at, NoneNul}
use l3_dd_trg.Sblkdev.Naming.{has_percent, describe_disk, doubled_plain, describe_disk_lem}
use l3_dd_trg.Sblkdev.Lifecycle.{sblkdev_add, major, catalog}
use l3_dd_trg.Sblkdev.Catalog.{
  split, first_two, entry, Added, Progress, Answers, Turn, next, break_with, added, add_one, turn,
  add_devices, read_catalog, sblkdev_init,
}
use l3_dd_trg.Sblkdev.Catalog.Split.{
  join, Free, AllFree, split-Free, split-append, split-join, Free-append,
}

-- a name and a number of sectors
abbrev pub Entry : Type 0
Entry = List ℕ × ℕ

abbrev print_entry : Entry → List ℕ
print_entry e = e.0 ++ b',' ∷ print_nat e.1

abbrev pub print_entries : List Entry → List (List ℕ)
print_entries [] = []
print_entries (e ∷ es) = print_entry e ∷ print_entries es

-- The names have no comma and no semicolon, and the numbers fit 64 bits.
abbrev pub AllPlain : List Entry → Type 0
AllPlain [] = Unit
AllPlain (e ∷ es) = Free b',' e.0 × Free b';' e.0 × (e.1 < 2 ^ 64) × AllPlain es

-- The names fit the kernel's 32 bytes with a NUL, and have no percent sign.
abbrev pub AllNamed : List Entry → Type 0
AllNamed [] = Unit
AllNamed (e ∷ es) = NoneNul e.0 × (has_percent e.0 ≡ false) × (length e.0 < 32) × AllNamed es

-- What the kernel is shown of a device, beside the driver's own minor number and capacity.
pub record Shown : Type 0 where
  pub name : List ℕ
  pub first_minor : ℕ
  pub disk_capacity : ℕ
  pub minor : ℕ
  pub capacity : ℕ

abbrev pub shown_as : Added → Option Shown
shown_as d = elim d.disk [
  | none ↦ none
  | some disk ↦ some (record {
    name = text_at disk.disk_name;
    first_minor = disk.first_minor;
    disk_capacity = disk.disk_capacity;
    minor = d.minor;
    capacity = d.capacity;
  })
]

-- What entries ask for, with the minor numbers from `inx` on, put before others.
abbrev pub asked : ℕ → List Entry → List (Option Shown) → List (Option Shown)
asked inx [] shown = shown
asked inx (e ∷ es) shown =
    let one : Shown = record {
      name = e.0;
      first_minor = inx;
      disk_capacity = e.1;
      minor = inx;
      capacity = e.1;
    } in
    asked (inx + 1) es (some one ∷ shown)

-- The devices of the entries, the first with the minor number `inx`, put before those in a list.
abbrev pub device_of : Answers → ℕ → Entry → Added
device_of a inx e = record {
  minor = inx;
  disk = describe_disk (pos_part a.register_blkdev) inx e.0 e.1 a.gendisk;
  capacity = e.1;
}

abbrev pub listed : Answers → ℕ → List Entry → List Added → List Added
listed a inx [] ds = ds
listed a inx (e ∷ es) ds = listed a (inx + 1) es (device_of a inx e ∷ ds)

-- Digits are no separators.
digits-Free : (sep : ℕ) (s : List ℕ) → AllDigits s → (sep < 48) ⊎ (57 < sep) → Free sep s
digits-Free sep [] h k = tt
digits-Free sep (c ∷ s) h k = (ground (arith, h.0), digits-Free sep s h.1 k)

print_entries-AllFree : (es : List Entry) → AllPlain es → AllFree b';' (print_entries es)
print_entries-AllFree [] h = tt
print_entries-AllFree (e ∷ es) h =
    let digits = digits-Free b';' (print_nat e.1) (print_nat-AllDigits e.1) (inr (omega arith)) in
    (
      Free-append b';' e.0 (b',' ∷ print_nat e.1) h.1 (omega arith, digits),
      print_entries-AllFree es h.3,
    )

entry-print_entry : (e : Entry) → Free b',' e.0 → entry (print_entry e) ≡ some (e.0, print_nat e.1)
unfolding entry
entry-print_entry e f =
    let digits = digits-Free b',' (print_nat e.1) (print_nat-AllDigits e.1) (inl (omega arith)) in
    ap first_two (
      split-append b',' e.0 (print_nat e.1) f
      ∙ ap (λ r. e.0 ∷ r) (split-Free b',' (print_nat e.1) digits))

module _ (a : Answers) (reads : (n : ℕ) → n < 2 ^ 64 → a.kstrtoull (print_nat n) ≡ (succeeded, n))
    (adds : (i : ℕ) → (sblkdev_add a.config (a.adding i) i).ret ≡ pos 0) where
  added_one :
      (inx : ℕ) (e : Entry)
      → add_one a inx e.0 e.1
        ≡ added (device_of a inx e) (sblkdev_add a.config (a.adding inx) inx).events
  unfolding add_one
  added_one inx e = rw (adds inx) refl

  -- a turn of the loop, once the token is taken apart, and once its number is read
  with_number : ℕ → List ℕ → Answer × ℕ → Turn
  with_number inx name r = elim r.0 [
    | failed e ↦ break_with (code (failed e)) []
    | succeeded ↦ add_one a inx name r.1
  ]

  with_entry : ℕ → Option (List ℕ × List ℕ) → Turn
  unfolding with_number
  with_entry inx o = elim o [
    | none ↦ next
    | some (name, capacity) ↦ with_number inx name (a.kstrtoull capacity)
  ]

  turn-print_entry :
      (inx : ℕ) (e : Entry)
      → Free b',' e.0
      → e.1 < 2 ^ 64
      → turn a inx (print_entry e)
        ≡ added (device_of a inx e) (sblkdev_add a.config (a.adding inx) inx).events
  unfolding turn with_entry with_number
  turn-print_entry inx e f h =
      ap (with_entry inx) (entry-print_entry e f)
      ∙ ap (with_number inx e.0) (reads e.1 h)
      ∙ added_one inx e

  after_turn : ℕ → Progress → List (List ℕ) → Turn → Progress
  after_turn inx p tokens t = elim t [
    | next ↦ add_devices a inx p tokens
    | break_with ret events ↦ record p { ret = ret; events = p.events ++ events }
    | added d events ↦
        add_devices a (inx + 1)
          (record { ret = pos 0; devices = d ∷ p.devices; events = p.events ++ events }) tokens
  ]

  add_devices-print_entries :
      (inx : ℕ) (p : Progress) (es : List Entry)
      → AllPlain es
      → p.ret ≡ pos 0
      → ((add_devices a inx p (print_entries es)).ret ≡ pos 0)
        × ((add_devices a inx p (print_entries es)).devices ≡ listed a inx es p.devices)
  unfolding add_devices after_turn
  add_devices-print_entries inx p [] h z = (z, refl)
  add_devices-print_entries inx p (e ∷ es) h z =
      let d : Added = device_of a inx e in
      let events = (sblkdev_add a.config (a.adding inx) inx).events in
      let p' : Progress = record {
        ret = pos 0;
        devices = d ∷ p.devices;
        events = p.events ++ events;
      } in
      let more = add_devices-print_entries (inx + 1) p' es h.3 refl in
      let step = ap (after_turn inx p (print_entries es)) (turn-print_entry inx e h.0 h.2) in
      (ap Progress.ret step ∙ more.0, ap Progress.devices step ∙ more.1)

  read_catalog-ret :
      (text : List ℕ)
      → let p =
          add_devices a 0
            (record { ret = pos 0; devices = []; events = acquire major ∷ acquire catalog ∷ [] })
            (split b';' text) in
        p.ret ≡ pos 0
        → ((read_catalog a text).ret ≡ pos 0) × ((read_catalog a text).devices ≡ p.devices)
  unfolding read_catalog
  read_catalog-ret text z = ground (arith, z)

  -- The load returns 0, and its list holds the devices of the entries, the last first.
  pub sblkdev_init-listed :
      (e : Entry) (es : List Entry)
      → AllPlain (e ∷ es)
      → is_nonpositive a.register_blkdev ≡ false
      → a.kzalloc ≡ true
      → length (join b';' (print_entries (e ∷ es))) ≤ a.page_size
      → let q = sblkdev_init a (join b';' (print_entries (e ∷ es))) in
        (q.ret ≡ pos 0) × (q.devices ≡ listed a 0 (e ∷ es) [])
  unfolding sblkdev_init
  sblkdev_init-listed e es plain registered memory page =
      let text = join b';' (print_entries (e ∷ es)) in
      let tokens =
        split-join b';' (print_entry e) (print_entries es) (print_entries-AllFree (e ∷ es) plain) in
      let start : Progress = record {
        ret = pos 0;
        devices = [];
        events = acquire major ∷ acquire catalog ∷ [];
      } in
      let added_all = add_devices-print_entries 0 start (e ∷ es) plain refl in
      let came = ap (add_devices a 0 start) tokens in
      let loop = read_catalog-ret text (ap Progress.ret came ∙ added_all.0) in
      let some_text : 1 ≤ length text = nonempty e es in
      let whole : sblkdev_init a text ≡ read_catalog a text =
        rw registered (ground (arith, memory, some_text, page)) in
      (
        ap Progress.ret whole ∙ loop.0,
        ap Progress.devices whole ∙ loop.1 ∙ ap Progress.devices came ∙ added_all.1,
      )
    where
      nonempty : (e : Entry) (es : List Entry) → 1 ≤ length (join b';' (print_entries (e ∷ es)))
      nonempty e [] = omega (arith, length-append e.0 (b',' ∷ print_nat e.1))
      nonempty e (f ∷ es) = omega (
        arith,
        length-append e.0 (b',' ∷ print_nat e.1),
        length-append (print_entry e) (b';' ∷ join b';' (print_entries (f ∷ es))),
      )

module _ (a : Answers) (array : length a.gendisk.disk_name ≡ 32) where
  device_of-shown :
      (inx : ℕ) (e : Entry)
      → NoneNul e.0
      → has_percent e.0 ≡ false
      → length e.0 < 32
      → shown_as (device_of a inx e)
        ≡ some (record {
          name = e.0;
          first_minor = inx;
          disk_capacity = e.1;
          minor = inx;
          capacity = e.1;
        })
  device_of-shown inx e n plain short =
      let (found, described, name, minor, capacity) =
        (describe_disk_lem (pos_part a.register_blkdev) inx e.0 e.1 a.gendisk n array).0 short in
      let own : describe_disk (pos_part a.register_blkdev) inx e.0 e.1 a.gendisk ≡ some found =
        ap (λ t. describe_disk (pos_part a.register_blkdev) inx t e.1 a.gendisk)
          (sym (doubled_plain e.0 plain))
        ∙ described in
      rw (own, name, minor, capacity) refl

  pub listed-shown :
      (es : List Entry) (inx : ℕ) (ds : List Added)
      → AllNamed es
      → map shown_as (listed a inx es ds) ≡ asked inx es (map shown_as ds)
  listed-shown [] inx ds h = refl
  listed-shown (e ∷ es) inx ds h =
      listed-shown es (inx + 1) (device_of a inx e ∷ ds) h.3
      ∙ ap (λ s. asked (inx + 1) es (s ∷ map shown_as ds)) (device_of-shown inx e h.0 h.1 h.2)

module _ (a : Answers) (reads : (n : ℕ) → n < 2 ^ 64 → a.kstrtoull (print_nat n) ≡ (succeeded, n))
    (adds : (i : ℕ) → (sblkdev_add a.config (a.adding i) i).ret ≡ pos 0)
    (array : length a.gendisk.disk_name ≡ 32) where
  -- A catalog that lists entries, "name,sectors;name,sectors", no longer than a page, of numbers
  -- of 64 bits and of names without a comma, a semicolon, a percent sign or a NUL and of fewer
  -- than 32 bytes, the size of a disk's array for its name: if kstrtoull reads decimal numbers and
  -- every device can be added, and the major number and the memory can be had, sblkdev_init
  -- returns 0, and the list holds a device for each entry, the last first, of its capacity and
  -- with the minor numbers in the order of the catalog; and the kernel is shown, for each, a disk
  -- of its name, its minor number and its capacity.
  pub sblkdev_init-entries :
      (e : Entry) (es : List Entry)
      → AllPlain (e ∷ es)
      → AllNamed (e ∷ es)
      → is_nonpositive a.register_blkdev ≡ false
      → a.kzalloc ≡ true
      → length (join b';' (print_entries (e ∷ es))) ≤ a.page_size
      → let q = sblkdev_init a (join b';' (print_entries (e ∷ es))) in
        (q.ret ≡ pos 0) × (map shown_as q.devices ≡ asked 0 (e ∷ es) [])
  sblkdev_init-entries e es plain named registered memory page =
      let init = sblkdev_init-listed a reads adds e es plain registered memory page in
      (init.0, ap (λ ds. map shown_as ds) init.1 ∙ listed-shown a array (e ∷ es) 0 [] named)
