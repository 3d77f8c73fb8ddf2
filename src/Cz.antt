-- ===== src/Cz.antt =====
-- cz_miscdrv/cz_enh_miscdrv.c and cz_miscdrv/cz_miscdrv.c: the read methods of the zero device.
pub mod Zeroes
pub mod Setup
pub mod Sink
pub mod Plain
mod Tests
use l3_dd_trg.Base.{
  ℕ, zero, suc, ◌+◌, ◌-◌, ◌*◌, ◌/◌, ◌%◌, ◌^◌, ◌≡◌, Bool, true, false, Option, none, some, List, ltb,
  length, take, replicate, ◌==◌, if◌then◌else◌, ◌>>=◌,
}
use l3_dd_trg.Base.Int.{ℤ, pos, negsuc, pos_part, to_int, enomem, efault}
use l3_dd_trg.Base.Bytes.{overwrite}

-- The kernel's `copy_to_user`: from the user's memory, an offset in it and the bytes to copy, the
-- number of bytes that could not be copied and the memory afterwards. A copy that faults has copied
-- the bytes before those.
pub record UserMemory : Type 0 where
  pub copy_to_user : List ℕ → ℕ → List ℕ → ℕ × List ℕ
  pub copied :
      (mem : List ℕ) (at : ℕ) (b : List ℕ)
      → (copy_to_user mem at b).1 ≡ overwrite mem at (take (length b - (copy_to_user mem at b).0) b)

-- an `int` as an argument of type `size_t`
abbrev pub to_size : ℤ → ℕ
to_size (pos n) = n
to_size (negsuc n) = 2 ^ 64 - n - 1

-- what `kzalloc` gives
abbrev pub zeroes : ℕ → List ℕ
zeroes n = replicate n 0

module _ (u : UserMemory) where
  -- `copy_to_user` of the first `n` bytes of `zbuf`; `none` reads past the end of it.
  unfoldable pub copy_chunk : List ℕ → ℕ → List ℕ → ℕ → Option (ℕ × List ℕ)
  copy_chunk mem at zbuf n =
      if ltb (length zbuf) n then none else some (u.copy_to_user mem at (take n zbuf))

  module _ (page_size : ℕ) where
    -- The loop over the pages, from the page `i` on: whether it came to its end, and the memory.
    unfoldable pub fill_pages : ℕ → ℕ → List ℕ → ℕ → List ℕ → Option (Bool × List ℕ)
    fill_pages zero i zbuf mcount mem = some (true, mem)
    fill_pages (suc n) i zbuf mcount mem =
        copy_chunk mem (i * page_size % 2 ^ 64) zbuf mcount >>= λ (left, mem').
        let rest = fill_pages n (i + 1) zbuf mcount mem' in
        if left == 0 then rest else some (false, mem')

    -- After the loop: the bytes that are left.
    unfoldable pub fill_rest : ℕ → List ℕ → ℕ → ℕ → List ℕ → Option (ℤ × List ℕ)
    fill_rest count zbuf i rem mem =
        if rem == 0
        then some (to_int count, mem)
        else (copy_chunk mem (i * page_size % 2 ^ 64) zbuf rem >>= λ (left, mem').
            some (if left == 0 then to_int count else efault, mem'))

    -- `czero_read` of cz_enh_miscdrv.c: its result and the user's memory, from `buf` on.
    unfoldable pub czero_read : Bool → ℕ → List ℕ → Option (ℤ × List ℕ)
    czero_read kzalloc count mem =
        let mcount = to_size (to_int (if ltb page_size count then page_size else count)) in
        let zbuf = zeroes mcount in
        let loopcount = pos_part (to_int (count / page_size)) in
        let rem = to_size (to_int (count % page_size)) in
        let filled = fill_pages loopcount 0 zbuf mcount mem >>= λ (all, mem').
        (if all then fill_rest count zbuf loopcount rem mem' else some (efault, mem')) in
        if kzalloc then filled else some (enomem, mem)

    -- `czero_read` of cz_miscdrv.c: one page at most.
    unfoldable pub czero_read_page : Bool → ℕ → List ℕ → Option (ℤ × List ℕ)
    czero_read_page kzalloc count mem =
        let n = if ltb page_size count then page_size else count in
        let filled = copy_chunk mem 0 (zeroes n) n >>= λ (left, mem').
        some (if left == 0 then to_int n else efault, mem') in
        if kzalloc then filled else some (enomem, mem)
