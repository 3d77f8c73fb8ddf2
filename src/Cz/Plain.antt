-- ===== src/Cz/Plain.antt =====
-- cz_miscdrv/cz_miscdrv.c, the simpler of the two drivers: its methods, its two tables of methods, its
-- setup and teardown, against those of cz_enh_miscdrv.c.
use l3_dd_trg.Base.{
  ℕ, ◌*◌, ◌/◌, ◌%◌, ◌^◌, ◌≤◌, ◌<◌, ◌≡◌, refl, Bool, true, false, Option, none, some, List, [], ◌∷◌,
  arith, replicate, ◌==◌, if◌then◌else◌, ◌>>=◌, ◌⊎◌, inl, inr, le→not-ltb, ne→not-==, Bool-cases,
}
use l3_dd_trg.Base.Int.{ℤ, pos, negsuc, to_ssize, to_int, efault}
use l3_dd_trg.Base.Ledger.{Answer, succeeded, failed, Event, acquire, release, Outcome, done, ◌▸◌}
use l3_dd_trg.Cz.{
  UserMemory, czero_read, czero_read_page, fill_pages, fill_rest, copy_chunk, to_size,
}
use l3_dd_trg.Cz.Setup.{Held, czero, cnul}
use l3_dd_trg.Cz.Setup
use l3_dd_trg.Cz.Sink
use l3_dd_trg.Cz.Sink.{enosys}

unfoldable pub czero_write : ℕ → ℤ
czero_write count = enosys

unfoldable pub cnul_read : ℕ → ℤ
cnul_read count = pos 0

unfoldable pub cnul_write : ℕ → ℤ
cnul_write count = to_ssize count

-- A table of methods: a read, with the answer of `kzalloc`, gives its result and the user's memory;
-- `none` is an access out of bounds.
pub record FileOperations : Type 0 where
  pub read : Bool → ℕ → List ℕ → Option (ℤ × List ℕ)
  pub write : ℕ → ℤ

-- `cz_czero_misc_fops` and `cz_cnul_misc_fops`, here and in cz_enh_miscdrv.c.
module _ (u : UserMemory) (page_size : ℕ) where
  unfoldable pub misc_fops : Held → FileOperations
  misc_fops czero = record { read = czero_read_page u page_size; write = czero_write }
  misc_fops cnul = record {
    read = λ kzalloc count mem. some (cnul_read count, mem);
    write = cnul_write;
  }

  unfoldable pub enh_misc_fops : Held → FileOperations
  enh_misc_fops czero = record { read = czero_read u page_size; write = Sink.czero_write }
  enh_misc_fops cnul = record {
    read = λ kzalloc count mem. some (Sink.cnul_read count, mem);
    write = Sink.cnul_write;
  }

-- With the answers of the two calls of `misc_register`.
unfoldable pub cz_init_module : Answer → Answer → Outcome Held
cz_init_module (failed e) second = done (negsuc e) []
cz_init_module (succeeded) (failed e) = acquire czero ▸ done (negsuc e) []
cz_init_module (succeeded) (succeeded) = acquire czero ▸ (acquire cnul ▸ done (pos 0) [])

unfoldable pub cz_cleanup_module : List (Event Held)
cz_cleanup_module = release cnul ∷ release czero ∷ []

-- One copy, and then the test of how much was left, or the test after the loop.
abbrev after_loop : ℤ → Option (Bool × List ℕ) → Option (ℤ × List ℕ)
after_loop all_done o = o >>= λ (all, mem). if all then some (all_done, mem) else some (efault, mem)

abbrev looped : Option (ℕ × List ℕ) → Option (Bool × List ℕ)
looped o = o >>= λ (left, mem). if left == 0 then some (true, mem) else some (false, mem)

abbrev tested : ℤ → Option (ℕ × List ℕ) → Option (ℤ × List ℕ)
tested all_done o = o >>= λ (left, mem). some (if left == 0 then all_done else efault, mem)

copy_once :
    (o : Option (ℕ × List ℕ)) (all_done : ℤ) → after_loop all_done (looped o) ≡ tested all_done o
copy_once none all_done = refl
copy_once (some (left, mem)) all_done = elim (Bool-cases (left == 0)) [
  | inl whole ↦ rw whole refl
  | inr cut ↦ rw cut refl
]

lt_or_eq : (a b : ℕ) → a ≤ b → (a < b) ⊎ (a ≡ b)
lt_or_eq a b h = ground arith

module _ (u : UserMemory) (page_size : ℕ) (some_page : 0 < page_size)
    (small : page_size < 2 ^ 31) where
  -- a `size_t` below 2^31 as an `int`, and back
  as_int : (n : ℕ) → n < 2 ^ 31 → to_size (to_int n) ≡ n
  as_int n h = ground arith

  below_a_page :
      (kzalloc : Bool) (count : ℕ) (mem : List ℕ)
      → 0 < count
      → count < page_size
      → czero_read u page_size kzalloc count mem ≡ czero_read_page u page_size kzalloc count mem
  unfolding czero_read czero_read_page fill_pages fill_rest
  below_a_page false count mem p h = refl
  below_a_page true count mem p h =
      let q : count / page_size ≡ 0 = grind arith in
      let r : count % page_size ≡ count = grind arith in
      let start : 0 * page_size % 2 ^ 64 ≡ 0 = omega arith in
      rw
        (
          le→not-ltb page_size count (omega arith),
          q,
          r,
          as_int count (omega arith),
          ne→not-== count 0 (omega arith),
          start,
        )
        refl

  one_page :
      (kzalloc : Bool) (mem : List ℕ)
      → czero_read u page_size kzalloc page_size mem
        ≡ czero_read_page u page_size kzalloc page_size mem
  unfolding czero_read czero_read_page fill_pages fill_rest
  one_page false mem = refl
  one_page true mem =
      let q : page_size / page_size ≡ 1 = grind arith in
      let r : page_size % page_size ≡ 0 = grind arith in
      let start : 0 * page_size % 2 ^ 64 ≡ 0 = omega arith in
      rw (le→not-ltb page_size page_size (omega arith), q, r, as_int page_size small, start)
        (copy_once (copy_chunk u mem 0 (replicate page_size 0) page_size) (to_int page_size))

  -- With pages of fewer than 2^31 bytes: the two drivers have the same writes and the same null device,
  -- and the same reads of the zero device from one byte up to a page.
  pub misc_fops-enh_misc_fops :
      (device : Held) (kzalloc : Bool) (count : ℕ) (mem : List ℕ)
      → ((misc_fops u page_size device).write count
          ≡ (enh_misc_fops u page_size device).write count)
        × (0 < count
            → count ≤ page_size
            → (enh_misc_fops u page_size device).read kzalloc count mem
              ≡ (misc_fops u page_size device).read kzalloc count mem)
  unfolding misc_fops enh_misc_fops czero_write cnul_read cnul_write Sink.czero_write Sink.cnul_read
      Sink.cnul_write
  misc_fops-enh_misc_fops cnul kzalloc count mem = (refl, λ p h. refl)
  misc_fops-enh_misc_fops czero kzalloc count mem = (refl, λ p h. zero_read p h)
    where
      zero_read :
          0 < count
          → count ≤ page_size
          → czero_read u page_size kzalloc count mem ≡ czero_read_page u page_size kzalloc count mem
      zero_read p h = elim (lt_or_eq count page_size h) [
        | inl less ↦ below_a_page kzalloc count mem p less
        | inr same ↦ rw same (one_page kzalloc mem)
      ]

-- The setup and the teardown are those of cz_enh_miscdrv.c.
init-init :
    (first second : Answer)
    → (cz_init_module first second ≡ Setup.cz_init_module first second)
      × (cz_cleanup_module ≡ Setup.cz_cleanup_module)
unfolding cz_init_module cz_cleanup_module Setup.cz_init_module Setup.cz_cleanup_module
init-init (failed e) second = (refl, refl)
init-init (succeeded) (failed e) = (refl, refl)
init-init (succeeded) (succeeded) = (refl, refl)
