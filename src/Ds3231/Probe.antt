-- ===== src/Ds3231/Probe.antt =====
-- `ds3231_probe` of ds3231.c: what it keeps when it fails, and what it writes to the chip.
use Prim.Native.Nat.{bit_or}
use l3_dd_trg.Base.{
  ◌%◌, ℕ, ◌-◌, ◌≡◌, ◌≢◌, Bool, true, false, List, [], ◌∷◌, ◌++◌, ◌&&◌, arith, if◌then◌else◌, some,
}
use l3_dd_trg.Base.Int.{ℤ, pos, negsuc, is_zero, enodev, enomem}
use l3_dd_trg.Base.Ledger.{Answer, succeeded, failed, code, Resource, Event, acquire, replay}
use l3_dd_trg.Ds3231.{Bus, ds3231_read_block_data}

-- What is not released by the kernel itself when the probe fails.
pub data Held : Type 0 where
  temp_file rtc : Held

abbrev tag : Held → ℕ
tag temp_file = 0
tag rtc = 1

pub tag_injective : (a b : Held) → tag a ≡ tag b → a ≡ b
tag_injective a b h = ground arith

instance abbrev pub held_resource : Resource Held
held_resource = record { tag = tag; tag_injective = tag_injective }

-- The kernel's answers during the probe. `request_irq` is not looked at but for a warning.
pub record Kernel : Type 0 where
  pub functionality : Bool
  pub kzalloc : Bool
  pub rtc_allocate : Answer
  pub create_file : Answer
  pub rtc_register : Answer
  pub kstrtou8 : List ℕ → Answer

-- The result, the resources, and the registers written.
pub record Probed : Type 0 where
  pub ret : ℤ
  pub events : List (Event Held)
  pub writes : List (ℕ × ℕ)

abbrev control_reg : ℕ
control_reg = 0x0E

abbrev a1m1 : ℕ
a1m1 = 0x7

-- An `int` that becomes a `u8`.
abbrev to_u8 : ℤ → ℕ
to_u8 (pos n) = n % 256
to_u8 (negsuc n) = 255 - n % 256

abbrev alarm_writes : List (ℕ × ℕ)
alarm_writes = (0x7, 0x80) ∷ (0x8, 0x80) ∷ (0x9, 0x80) ∷ (0xA, 0x80) ∷ []

-- From the registration with the clock framework on. The control byte is parsed as text, and the
-- result of the parse is taken for it.
unfoldable program_chip : Bus → Kernel → List (ℕ × ℕ)
unfolding ds3231_read_block_data
program_chip bus k =
    let (err, regs) = ds3231_read_block_data bus a1m1 4 in
    if is_zero err
    then (let (err', ctrl) = ds3231_read_block_data bus control_reg 1 in
        if is_zero err'
        then alarm_writes ++ (control_reg, bit_or (to_u8 (code (k.kstrtou8 ctrl))) 5) ∷ []
        else alarm_writes)
    else alarm_writes

abbrev created : Answer → List (Event Held)
created succeeded = acquire temp_file ∷ []
created (failed e) = []

unfoldable pub ds3231_probe : Bus → Kernel → Probed
unfolding program_chip
ds3231_probe bus k =
    if k.functionality
    then (if k.kzalloc
        then elim k.rtc_allocate [
          | failed e ↦ record { ret = negsuc e; events = []; writes = [] }
          | succeeded ↦ elim k.rtc_register [
            | failed e ↦ record { ret = negsuc e; events = created k.create_file; writes = [] }
            | succeeded ↦ record {
              ret = pos 0;
              events = created k.create_file ++ acquire rtc ∷ [];
              writes = program_chip bus k;
            }
          ]
        ]
        else record { ret = enomem; events = []; writes = [] })
    else record { ret = enodev; events = []; writes = [] }

abbrev is_ok : Answer → Bool
is_ok succeeded = true
is_ok (failed e) = false

-- A probe that fails has written no register; it keeps the temperature file exactly if it got so
-- far and could make it, and keeps nothing else.
ds3231_probe_fails :
    (bus : Bus) (k : Kernel)
    → (ds3231_probe bus k).ret ≢ pos 0
    → ((ds3231_probe bus k).writes ≡ [])
      × (replay (ds3231_probe bus k).events []
          ≡ some (
              if k.functionality && k.kzalloc && is_ok k.rtc_allocate && is_ok k.create_file
              then temp_file ∷ []
              else []))
unfolding ds3231_probe
ds3231_probe_fails bus k h = ground arith

-- A probe that succeeds and reads both registers sets the four alarm registers, and then the control
-- register to a value that does not depend on the byte it held but through the success of parsing it
-- as text: to 5 if that succeeds, and to the error number with the bits of 5 if not.
ds3231_probe-writes :
    (bus : Bus) (k : Kernel) (regs ctrl : List ℕ)
    → (ds3231_probe bus k).ret ≡ pos 0
    → bus.transfer a1m1 4 ≡ (2, regs)
    → bus.transfer control_reg 1 ≡ (2, ctrl)
    → (k.kstrtou8 ctrl ≡ succeeded
        → (ds3231_probe bus k).writes ≡ alarm_writes ++ (control_reg, 5) ∷ [])
      × ((e : ℕ)
          → k.kstrtou8 ctrl ≡ failed e
          → (ds3231_probe bus k).writes
            ≡ alarm_writes ++ (control_reg, bit_or (255 - e % 256) 5) ∷ [])
unfolding ds3231_probe
ds3231_probe-writes bus k regs ctrl ok a c = ((λ s. ground arith), (λ e s. ground arith))
