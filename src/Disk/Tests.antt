-- ===== src/Disk/Tests.antt =====
-- A disk of two sectors: the second is written, then both are read, through each driver.
use l3_dd_trg.Sblkdev.Parallel.{Busy, go_all, begin_all}
use l3_dd_trg.Disk.AtOnce.{at_once, EnoughTurns, AllOver, replies, disk_after}
use l3_dd_trg.Base.{
  zero, suc, inr, ℕ, none, ◌+◌, ◌^◌, ◌≡◌, refl, true, false, some, List, [], ◌∷◌, ◌++◌, replicate,
  arith,
}
use l3_dd_trg.Sblkdev.{Device, Request, process_request}
use l3_dd_trg.Sblkdev.Transfer.{IsValid}
use l3_dd_trg.Sbd.{SbdDevice}
use l3_dd_trg.Sbd.Transfer
use l3_dd_trg.Disk.{answers, AllWithin, run}
use l3_dd_trg.Disk.Requests.{requests, requests_refine}
use l3_dd_trg.Disk.Fresh.{new_device, new_device-overruns}
use l3_dd_trg.Disk.Bios.{bios, requests-bios}
use l3_dd_trg.Disk.Older.{older, older-requests}

abbrev sevens : List ℕ
sevens = replicate 1024 7

abbrev dev : Device
dev = record { capacity = 2; store = sevens }

abbrev old : SbdDevice
old = record { size = 1024; store = sevens }

abbrev dev-IsValid : IsValid dev
dev-IsValid = record { allocated = refl; small = omega arith }

abbrev old-IsValid : Transfer.IsValid old
old-IsValid = record { allocated = refl; small = omega arith }

abbrev write_second : Request
write_second = record { sector = 1; is_write = true; segments = replicate 512 9 ∷ [] }

abbrev read_both : Request
read_both = record {
  sector = 0;
  is_write = false;
  segments = replicate 512 0 ∷ replicate 512 0 ∷ [];
}

abbrev script : List Request
script = write_second ∷ read_both ∷ []

script-AllWithin : AllWithin 1024 script
script-AllWithin = (
  record { fits = omega arith; short = omega arith; whole = (refl, tt) },
  (record { fits = omega arith; short = omega arith; whole = (refl, (refl, tt)) }, tt),
)

script-answers : answers sevens script ≡ [] ∷ (replicate 512 7 ++ replicate 512 9) ∷ []
script-answers = refl

requests_refine_example : run requests dev script ≡ some (answers sevens script)
requests_refine_example = requests_refine script dev-IsValid script-AllWithin

requests-bios_example : run requests dev script ≡ run bios dev script
requests-bios_example = requests-bios script dev-IsValid (omega arith) script-AllWithin

older-requests_example : run older old script ≡ run requests dev script
older-requests_example = older-requests script old-IsValid dev-IsValid refl script-AllWithin

new_device-overruns_example :
    process_request (new_device (2 ^ 55 + 0)) (record read_both { sector = 7 }) ≡ none
new_device-overruns_example =
    new_device-overruns 0 (record read_both { sector = 7 }) (replicate 512 0) (replicate 512 0 ∷ [])
      refl (omega arith) (omega arith) (omega arith)

-- The upper half of a disk of four sectors is written while the lower half is read.
abbrev wide : Device
wide = record { capacity = 4; store = replicate 2048 7 }

abbrev wide-IsValid : IsValid wide
wide-IsValid = record { allocated = refl; small = omega arith }

abbrev write_upper : Request
write_upper = record {
  sector = 2;
  is_write = true;
  segments = replicate 512 9 ∷ replicate 512 8 ∷ [];
}

abbrev halves : List Request
halves = write_upper ∷ read_both ∷ []

halves-AllWithin : AllWithin 2048 halves
halves-AllWithin = (
  record { fits = omega arith; short = omega arith; whole = (refl, (refl, tt)) },
  (record { fits = omega arith; short = omega arith; whole = (refl, (refl, tt)) }, tt),
)

halves-EnoughTurns : EnoughTurns halves (1 ∷ 0 ∷ 0 ∷ 1 ∷ [])
halves-EnoughTurns zero h = omega arith
halves-EnoughTurns (suc zero) h = omega arith
halves-EnoughTurns (suc (suc i)) h = absurd (omega arith)

at_once_example :
    (s : Busy) × (go_all 2048 (begin_all wide halves) (1 ∷ 0 ∷ 0 ∷ 1 ∷ []) ≡ some s)
    × AllOver s.calls
    × (run requests wide halves ≡ some (replies halves s.calls))
    × (s.store ≡ disk_after wide.store halves)
at_once_example =
    at_once wide halves (1 ∷ 0 ∷ 0 ∷ 1 ∷ []) wide-IsValid halves-AllWithin
      ((inr (inr (omega arith)), tt), (tt, tt))
      (omega arith, (omega arith, (omega arith, (omega arith, tt)))) halves-EnoughTurns
