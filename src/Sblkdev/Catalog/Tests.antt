-- ===== src/Sblkdev/Catalog/Tests.antt =====
-- Runs of the block driver's setup, and of loads for a catalog, and the theorems at concrete inputs.
use l3_dd_trg.Sblkdev.Catalog.Any.{wishes, wanted}
use l3_dd_trg.Disk.Loaded.{loaded, blank_disks, loaded-answers}
use l3_dd_trg.Disk.Machine.{run_machine}
use l3_dd_trg.Disk.Several.{Log, Replies, requests_to, replies_from, LogWithin}
use l3_dd_trg.Disk
use l3_dd_trg.Sblkdev.Wiring.{Limits}
use l3_dd_trg.Base.{
  map, length-replicate, ℕ, suc, length, Option, ap, sym, append-nil, ◌^◌, ◌∙◌, ◌*◌, ◌≤◌, ◌<◌, ◌≡◌,
  ◌≢◌, refl, true, false, none, some, List, [], ◌∷◌, ◌++◌, replicate, get_or, arith,
}
use l3_dd_trg.Base.Int.{pos, enomem, einval}
use l3_dd_trg.Base.Ledger.{Answer, succeeded, failed, replay}
use l3_dd_trg.Base.Decimal.{print_nat, scan_nat, scan_nat-print_nat}
use l3_dd_trg.Sblkdev.Catalog.Listing.{
  AllNamed, shown_as, asked, Entry, print_entries, sblkdev_init-entries,
}
use l3_dd_trg.Sblkdev.Catalog.Failed.{failed_load_keeps}
use l3_dd_trg.Base.Text.{text_at, NoneNul}
use l3_dd_trg.Sblkdev.Naming.{Gendisk, doubled, printed, describe_disk, describe_disk_lem}
use l3_dd_trg.Sblkdev.{Request}
use l3_dd_trg.Sblkdev.Lifecycle.{
  held_resource, Config, Kernel, valid, disk, owned, sblkdev_add, sblkdev_add-ledger,
}
use l3_dd_trg.Sblkdev.Catalog
use l3_dd_trg.Sblkdev.Catalog.{Answers, Added, split, sblkdev_init, sblkdev_exit}
use l3_dd_trg.Sblkdev.Catalog.Split.{join}
use l3_dd_trg.Sblkdev.Catalog.Setup.{
  owned_all, rest, sblkdev_init-ledger, sblkdev_exit-sblkdev_init,
}

abbrev modern : Config
modern = record { requests_based = true; kernel_alloc_disk = true; add_disk_result = true }

abbrev kernel : Kernel
kernel = record {
  kzalloc = true;
  kvzalloc = true;
  blk_mq_alloc_tag_set = succeeded;
  alloc_disk = valid;
  init_queue = valid;
  legacy_alloc_disk = true;
  add_disk = succeeded;
}

-- `add_disk` fails.
abbrev kernel_late : Kernel
kernel_late = record kernel { add_disk = failed 11 }

sblkdev_add-ledger_example :
    ((sblkdev_add modern kernel_late 1).ret ≡ pos 0
      → replay (sblkdev_add modern kernel_late 1).events (disk 0 ∷ [])
        ≡ some (owned modern 1 ++ disk 0 ∷ []))
    × ((sblkdev_add modern kernel_late 1).ret ≢ pos 0
        → replay (sblkdev_add modern kernel_late 1).events (disk 0 ∷ []) ≡ some (disk 0 ∷ []))
sblkdev_add-ledger_example = sblkdev_add-ledger modern kernel_late 1 (disk 0 ∷ []) refl

-- `kstrtoull` on one decimal digit.
abbrev digit : List ℕ → Answer × ℕ
digit [] = (failed 21, 0)
digit (c ∷ _) = (succeeded, c)

abbrev blank : Gendisk
blank = record {
  no_part = false;
  major = 0;
  first_minor = 0;
  minors = 0;
  disk_name = replicate 32 0;
  disk_capacity = 0;
}

-- Adding the device with the minor number 1 fails.
abbrev answers : Answers
answers = record {
  config = modern;
  register_blkdev = pos 250;
  page_size = 4096;
  kzalloc = true;
  kstrtoull = digit;
  adding = λ i. elim i [ suc _ ↦ kernel_late | _ ↦ kernel ];
  gendisk = blank;
}

abbrev answers_good : Answers
answers_good = record answers { adding = λ _. kernel }

-- "a,8;b,9"
abbrev text : List ℕ
text = b'a' ∷ b',' ∷ b'8' ∷ b';' ∷ b'b' ∷ b',' ∷ b'9' ∷ []

sblkdev_init-ledger_example :
    let q = sblkdev_init answers text in
    replay q.events [] ≡ some (owned_all modern q.devices (rest q.ret))
sblkdev_init-ledger_example = sblkdev_init-ledger answers refl text

-- The second device fails: the load fails, and the first device stays.
half_loaded :
    let q = sblkdev_init answers text in
    (q.ret ≡ enomem) × (replay q.events [] ≡ some (owned modern 0))
unfolding sblkdev_init Catalog.turn Catalog.split Catalog.entry sblkdev_add
half_loaded = (refl, refl)

sblkdev_exit-sblkdev_init_example :
    let q = sblkdev_init answers_good text in
    replay (q.events ++ sblkdev_exit answers_good q.devices) [] ≡ some []
unfolding sblkdev_init Catalog.turn Catalog.split Catalog.entry sblkdev_add
sblkdev_exit-sblkdev_init_example = sblkdev_exit-sblkdev_init answers_good refl text refl

-- "sblkdev1", a name of the module's own catalog
abbrev own_name : List ℕ
own_name = 115 ∷ 98 ∷ 108 ∷ 107 ∷ 100 ∷ 101 ∷ 118 ∷ 49 ∷ []

own_name-NoneNul : NoneNul own_name
own_name-NoneNul = (
  omega arith,
  (
    omega arith,
    (omega arith, (omega arith, (omega arith, (omega arith, (omega arith, (omega arith, tt)))))),
  ),
)

describe_disk_lem_example :
    (length own_name < 32
      → (found : Gendisk) × (describe_disk 252 1 (doubled own_name) 2 blank ≡ some found)
        × (text_at found.disk_name ≡ own_name)
        × (found.first_minor ≡ 1)
        × (found.disk_capacity ≡ 2))
    × (32 ≤ length own_name → describe_disk 252 1 (doubled own_name) 2 blank ≡ none)
describe_disk_lem_example = describe_disk_lem 252 1 own_name 2 blank own_name-NoneNul refl

-- "a%%b" is a%b, and "a%d" reads an argument.
percent_names :
    (printed false (b'a' ∷ b'%' ∷ b'%' ∷ b'b' ∷ []) ≡ some (b'a' ∷ b'%' ∷ b'b' ∷ []))
    × (printed false (b'a' ∷ b'%' ∷ b'd' ∷ []) ≡ none)
unfolding printed
percent_names = (refl, refl)

-- `kstrtoull` on decimal numbers.
numbers_of : Option (ℕ × List ℕ) → Answer × ℕ
numbers_of none = (failed 21, 0)
numbers_of (some (n, rest)) = (succeeded, n)

abbrev decimal : Answers
decimal = record answers_good { kstrtoull = λ s. numbers_of (scan_nat s) }

decimal-reads : (n : ℕ) → n < 2 ^ 64 → decimal.kstrtoull (print_nat n) ≡ (succeeded, n)
unfolding numbers_of
decimal-reads n h =
    ap (λ s. numbers_of (scan_nat s)) (sym (append-nil (print_nat n)))
    ∙ ap numbers_of (scan_nat-print_nat n [] tt)

decimal-adds : (i : ℕ) → (sblkdev_add modern kernel i).ret ≡ pos 0
unfolding sblkdev_add
decimal-adds i = refl

two_entries-length :
    length (join b';' (print_entries ((b'a' ∷ [], 2048) ∷ (b'b' ∷ [], 70) ∷ []))) ≤ 4096
unfolding print_nat
two_entries-length = omega arith

two_entries-AllNamed : AllNamed ((b'a' ∷ [], 2048) ∷ (b'b' ∷ [], 70) ∷ [])
two_entries-AllNamed =
    ((omega arith, tt), refl, omega arith, ((omega arith, tt), refl, omega arith, tt))

sblkdev_init-entries_example :
    let q =
      sblkdev_init decimal (join b';' (print_entries ((b'a' ∷ [], 2048) ∷ (b'b' ∷ [], 70) ∷ []))) in
    (q.ret ≡ pos 0)
    × (map shown_as q.devices ≡ asked 0 ((b'a' ∷ [], 2048) ∷ (b'b' ∷ [], 70) ∷ []) [])
sblkdev_init-entries_example =
    sblkdev_init-entries decimal decimal-reads decimal-adds refl (b'a' ∷ [], 2048)
      ((b'b' ∷ [], 70) ∷ [])
      (
        (omega arith, tt),
        (omega arith, tt),
        omega arith,
        ((omega arith, tt), (omega arith, tt), omega arith, tt),
      )
      two_entries-AllNamed refl refl two_entries-length

-- The two disks of that catalog: the second is written, and then read.
abbrev to_b : Request
to_b = record { sector = 69; is_write = true; segments = replicate 512 9 ∷ [] }

abbrev read_b : Request
read_b = record { sector = 69; is_write = false; segments = replicate 512 0 ∷ [] }

abbrev two_entries : List Entry
two_entries = (b'a' ∷ [], 2048) ∷ (b'b' ∷ [], 70) ∷ []

abbrev usual : Limits
usual = record {
  physical_block_size = 512;
  logical_block_size = 512;
  io_min = 512;
  io_opt = 0;
  nomerges = false;
}

abbrev b_log : Log
b_log = (1, to_b) ∷ (1, read_b) ∷ []

b_log-LogWithin : LogWithin 2 (λ i. length (get_or (blank_disks two_entries) i [])) b_log
b_log-LogWithin = (
  omega arith,
  record {
    fits = omega (arith, length-replicate {A = ℕ} (70 * 512) 0);
    short = omega arith;
    whole = (refl, tt);
  },
  (
    omega arith,
    record {
      fits = omega (arith, length-replicate {A = ℕ} (70 * 512) 0);
      short = omega arith;
      whole = (refl, tt);
    },
    tt,
  ),
)

loaded-answers_example :
    ((sblkdev_init decimal (join b';' (print_entries two_entries))).ret ≡ pos 0)
    × (map shown_as (sblkdev_init decimal (join b';' (print_entries two_entries))).devices
        ≡ asked 0 two_entries [])
    × (out : Replies) × (run_machine
          (loaded decimal none usual (join b';' (print_entries two_entries)))
          b_log
        ≡ some out)
    × ((i : ℕ)
        → i < 2
        → replies_from i out
          ≡ Disk.answers (get_or (blank_disks two_entries) i []) (requests_to i b_log))
loaded-answers_example =
    loaded-answers decimal decimal-reads decimal-adds refl none usual (b'a' ∷ [], 2048)
      ((b'b' ∷ [], 70) ∷ []) b_log
      (
        (omega arith, tt),
        (omega arith, tt),
        omega arith,
        ((omega arith, tt), (omega arith, tt), omega arith, tt),
      )
      two_entries-AllNamed (omega arith, (omega arith, tt)) refl refl two_entries-length
      b_log-LogWithin

-- "a,9;;b;c,x;d,1": the first entry gets a device, the next two pieces have no comma, and "x" is no
-- number.
abbrev odd_pieces : List (List ℕ)
odd_pieces = [] ∷ (b'b' ∷ []) ∷ (b'c' ∷ b',' ∷ b'x' ∷ []) ∷ (b'd' ∷ b',' ∷ b'1' ∷ []) ∷ []

abbrev a_piece : List ℕ
a_piece = b'a' ∷ b',' ∷ b'9' ∷ []

odd_catalog-ret : (sblkdev_init decimal (join b';' (a_piece ∷ odd_pieces))).ret ≡ einval
unfolding sblkdev_init scan_nat numbers_of sblkdev_add split Catalog.turn
odd_catalog-ret = refl

wanted-odd_pieces : wanted (wishes decimal (a_piece ∷ odd_pieces)) ≡ (b'a' ∷ [], 9) ∷ []
unfolding scan_nat numbers_of
wanted-odd_pieces = refl

second_fails : (sblkdev_init answers (a_piece ++ b';' ∷ a_piece)).ret ≢ pos 0
unfolding sblkdev_init Catalog.turn Catalog.split Catalog.entry sblkdev_add
second_fails e = cc

-- The second device cannot be added.
failed_load_keeps_example :
    let q = sblkdev_init answers (a_piece ++ b';' ∷ a_piece) in
    (q.devices ≡ (sblkdev_init answers a_piece).devices)
    × (replay q.events [] ≡ some (owned_all modern (sblkdev_init answers a_piece).devices []))
failed_load_keeps_example =
    failed_load_keeps answers refl a_piece a_piece (omega arith, (omega arith, (omega arith, tt)))
      (omega arith) (omega arith) second_fails

one_device_left :
    let ds = (sblkdev_init answers a_piece).devices in owned_all modern ds [] ≡ owned modern 0
unfolding sblkdev_init Catalog.turn Catalog.split Catalog.entry sblkdev_add
one_device_left = refl
