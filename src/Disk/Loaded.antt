-- ===== src/Disk/Loaded.antt =====
-- From the catalog to the data: the disks that a load of blockdrv/sblkdev (main.c) adds for a catalog,
-- and what they answer (device.c).
use l3_dd_trg.Base.{
  map, ℕ, ◌+◌, ◌*◌, ◌^◌, ◌≤◌, ◌<◌, ◌≡◌, ◌∙◌, ap, false, true, Option, some, List, [], ◌∷◌, ◌++◌,
  append-nil, append_assoc, sym, length, length-replicate, get_or, replicate, arith,
}
use l3_dd_trg.Base.Int.{pos, is_nonpositive}
use l3_dd_trg.Base.Ledger.{succeeded}
use l3_dd_trg.Base.Decimal.{print_nat}
use l3_dd_trg.Sblkdev.{Device, to_bytes}
use l3_dd_trg.Sblkdev.Transfer.{IsValid}
use l3_dd_trg.Sblkdev.Lifecycle.{sblkdev_add}
use l3_dd_trg.Sblkdev.Wiring.{Machine, Limits, attach_all}
use l3_dd_trg.Sblkdev.Catalog.{Added, Answers, sblkdev_init}
use l3_dd_trg.Sblkdev.Catalog.Split.{join}
use l3_dd_trg.Sblkdev.Catalog.Listing.{
  Entry, print_entries, AllPlain, AllNamed, shown_as, asked, device_of, listed, listed-shown,
  sblkdev_init-listed,
}
use l3_dd_trg.Disk.{answers}
use l3_dd_trg.Disk.Fresh.{new_device}
use l3_dd_trg.Disk.Several.{Log, Replies, requests_to, replies_from, LogWithin}
use l3_dd_trg.Disk.Machine.{no_devices, run_machine, HoldDisks, attach_all-alone}

-- The devices of `sblkdev_device_list`, whose newest is the first, in the order in which they were
-- added.
abbrev pub allocated : List Added → List Device
allocated [] = []
allocated (d ∷ ds) = allocated ds ++ new_device d.capacity ∷ []

-- The machine after `sblkdev_init` with this text as the module parameter `catalog`.
unfoldable pub loaded : Answers → Option ℕ → Limits → List ℕ → Machine
loaded a block_size limits text =
    attach_all block_size limits no_devices (allocated (sblkdev_init a text).devices)

-- The disks that a catalog asks for: as many zeros as its entries say.
abbrev blank_disk : Entry → List ℕ
blank_disk e = replicate (e.1 * 512) 0

abbrev pub blank_disks : List Entry → List (List ℕ)
blank_disks [] = []
blank_disks (e ∷ es) = blank_disk e ∷ blank_disks es

-- None of them has 2^63 bytes or more.
abbrev AllSmall : List Entry → Type 0
AllSmall [] = Unit
AllSmall (e ∷ es) = (e.1 * 512 < 2 ^ 63) × AllSmall es

abbrev new_devices : List Entry → List Device
new_devices [] = []
new_devices (e ∷ es) = new_device e.1 ∷ new_devices es

allocated-listed :
    (a : Answers) (inx : ℕ) (es : List Entry) (ds : List Added)
    → allocated (listed a inx es ds) ≡ allocated ds ++ new_devices es
allocated-listed a inx [] ds = sym (append-nil (allocated ds))
allocated-listed a inx (e ∷ es) ds =
    allocated-listed a (inx + 1) es (device_of a inx e ∷ ds)
    ∙ append_assoc (allocated ds) (new_device e.1 ∷ []) (new_devices es)

new_device-blank :
    (e : Entry)
    → e.1 * 512 < 2 ^ 63
    → IsValid (new_device e.1) × ((new_device e.1).store ≡ blank_disk e)
new_device-blank e small =
    let bytes : to_bytes e.1 ≡ e.1 * 512 = omega arith in
    (
      record { allocated = length-replicate (to_bytes e.1) 0 ∙ bytes; small = small },
      ap (λ n. replicate n 0) bytes,
    )

new_devices-HoldDisks :
    (es : List Entry) → AllSmall es → HoldDisks (new_devices es) (blank_disks es)
new_devices-HoldDisks [] h = tt
new_devices-HoldDisks (e ∷ es) h = (new_device-blank e h.0, new_devices-HoldDisks es h.1)

module _ (a : Answers) (reads : (n : ℕ) → n < 2 ^ 64 → a.kstrtoull (print_nat n) ≡ (succeeded, n))
    (adds : (i : ℕ) → (sblkdev_add a.config (a.adding i) i).ret ≡ pos 0)
    (array : length a.gendisk.disk_name ≡ 32) where
  -- The module is loaded with a catalog of entries, "name,sectors;name,sectors", no longer than a
  -- page, of sizes below 2^63 bytes and of names without a comma, a semicolon, a percent sign or a
  -- NUL and of fewer than 32 bytes, the size of a disk's array for its name: if kstrtoull reads
  -- decimal numbers, every device can be added, and the major number and the memory can be had,
  -- the load returns 0, and the kernel is shown a disk of the name and the capacity of each entry.
  -- Requests, each within one of them, of fewer than 2^32 bytes and in segments of whole sectors
  -- of 512 bytes, are queued at them in any order: all succeed, and the i-th disk answers those
  -- that are queued at it as a disk of zeros of the size that the i-th entry names, served alone.
  pub loaded-answers :
      (block_size : Option ℕ) (limits : Limits) (e : Entry) (es : List Entry) (log : Log)
      → AllPlain (e ∷ es)
      → AllNamed (e ∷ es)
      → AllSmall (e ∷ es)
      → is_nonpositive a.register_blkdev ≡ false
      → a.kzalloc ≡ true
      → length (join b';' (print_entries (e ∷ es))) ≤ a.page_size
      → LogWithin
          (length (blank_disks (e ∷ es)))
          (λ i. length (get_or (blank_disks (e ∷ es)) i []))
          log
      → let disks = blank_disks (e ∷ es) in
        let m = loaded a block_size limits (join b';' (print_entries (e ∷ es))) in
        let q = sblkdev_init a (join b';' (print_entries (e ∷ es))) in
        (q.ret ≡ pos 0)
        × (map shown_as q.devices ≡ asked 0 (e ∷ es) [])
        × (out : Replies) × (run_machine m log ≡ some out)
        × ((i : ℕ)
            → i < length disks
            → replies_from i out ≡ answers (get_or disks i []) (requests_to i log))
  unfolding loaded
  loaded-answers block_size limits e es log plain named small registered memory page within =
      let text = join b';' (print_entries (e ∷ es)) in
      let init = sblkdev_init-listed a reads adds e es plain registered memory page in
      let devices : allocated (sblkdev_init a text).devices ≡ new_devices (e ∷ es) =
        ap allocated init.1 ∙ allocated-listed a 0 (e ∷ es) [] in
      let (out, ran, alone) =
        attach_all-alone block_size limits (new_devices (e ∷ es)) (blank_disks (e ∷ es)) log
          (new_devices-HoldDisks (e ∷ es) small) within in
      (
        init.0,
        ap (λ ds. map shown_as ds) init.1 ∙ listed-shown a array (e ∷ es) 0 [] named,
        out,
        rw devices ran,
        alone,
      )
