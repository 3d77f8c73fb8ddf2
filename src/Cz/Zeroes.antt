-- ===== src/Cz/Zeroes.antt =====
-- What a read of the zero device (cz_miscdrv) leaves in the user's memory: zeroes from its start on.
use l3_dd_trg.Base.{
  ℕ, zero, suc, ◌+◌, ◌-◌, ◌*◌, ◌/◌, ◌%◌, ◌^◌, ◌≡◌, ◌≢◌, ◌≤◌, ◌<◌, ◌⊎◌, inl, inr, refl, ap, ◌∙◌,
  true, false, some, List, ◌∷◌, ◌++◌, ltb, length, take, min, length-replicate, le→not-ltb, ◌==◌,
  if◌then◌else◌, arith, Bool-cases,
}
use l3_dd_trg.Base.Int.{pos, pos_part, to_int, efault}
use l3_dd_trg.Base.Bytes.{overwrite, overwrite-append, overwrite-nil}
use l3_dd_trg.Cz.{
  UserMemory, zeroes, to_size, copy_chunk, fill_pages, fill_rest, czero_read, czero_read_page,
}

take-zeroes : (n m : ℕ) → n ≤ m → take n (zeroes m) ≡ zeroes n
take-zeroes zero m h = refl
take-zeroes (suc n) zero h = absurd (omega arith)
take-zeroes (suc n) (suc m) h = ap (λ r. 0 ∷ r) (take-zeroes n m (omega arith))

zeroes-append : (n m : ℕ) → zeroes n ++ zeroes m ≡ zeroes (n + m)
zeroes-append zero m = ap zeroes (omega arith)
zeroes-append (suc n) m =
    let next : suc (n + m) ≡ suc n + m = omega arith in
    ap (λ r. 0 ∷ r) (zeroes-append n m) ∙ ap zeroes next

at_least_one : (n p : ℕ) → 0 < n → p ≤ n * p
at_least_one zero p h = absurd (omega arith)
at_least_one (suc n) p h = omega arith

-- the memory with its first `k` bytes zero
abbrev pub zeroed : List ℕ → ℕ → List ℕ
zeroed mem k = overwrite mem 0 (zeroes k)

-- Zeroes behind the zeroes that are there.
zeroed-extend :
    (mem : List ℕ) (at n : ℕ)
    → at + n ≤ length mem
    → overwrite (zeroed mem at) at (zeroes n) ≡ zeroed mem (at + n)
zeroed-extend mem at n h =
    overwrite-append mem 0 (zeroes at) at (zeroes n) (omega arith)
      (omega (arith, length-replicate {A = ℕ} at 0))
    ∙ ap (overwrite mem 0) (zeroes-append at n)

module _ (u : UserMemory) where
  -- Some copy to the user faults.
  abbrev pub Faults : Type 0
  Faults = (mem : List ℕ) × (at : ℕ) × (b : List ℕ) × ((u.copy_to_user mem at b).0 ≢ 0)

  copy_chunk_lem :
      (mem : List ℕ) (at m n : ℕ)
      → n ≤ m
      → at + n ≤ length mem
      → copy_chunk u (zeroed mem at) at (zeroes m) n
        ≡ some (
          (u.copy_to_user (zeroed mem at) at (zeroes n)).0,
          zeroed mem (at + (n - (u.copy_to_user (zeroed mem at) at (zeroes n)).0)),
        )
  unfolding copy_chunk
  copy_chunk_lem mem at m n h k =
      let left = (u.copy_to_user (zeroed mem at) at (zeroes n)).0 in
      let size : length (zeroes n) ≡ n = length-replicate n 0 in
      let got : (u.copy_to_user (zeroed mem at) at (zeroes n)).1 ≡ zeroed mem (at + (n - left)) =
        u.copied (zeroed mem at) at (zeroes n)
        ∙ ap (λ s. overwrite (zeroed mem at) at (take (s - left) (zeroes n))) size
        ∙ ap (overwrite (zeroed mem at) at) (take-zeroes (n - left) n (omega arith))
        ∙ zeroed-extend mem at (n - left) (omega arith) in
      rw
        (
          le→not-ltb (length (zeroes m)) n (omega (arith, length-replicate {A = ℕ} m 0)),
          take-zeroes n m h,
        )
        (ap (λ x. some (left, x)) got)

  -- A read from a buffer of `m` zeroes, `at` bytes of the user's memory done.
  module _ (mem : List ℕ) (page_size m : ℕ) where
    fill_pages_lem :
        (n i at : ℕ)
        → (0 < n → m ≡ page_size)
        → at ≡ i * page_size
        → at + n * page_size < 2 ^ 31
        → at + n * page_size ≤ length mem
        → (fill_pages u page_size n i (zeroes m) m (zeroed mem at)
            ≡ some (true, zeroed mem (at + n * page_size)))
          ⊎ (Faults
              × ((k : ℕ) × (k ≤ at + n * page_size)
                  × (fill_pages u page_size n i (zeroes m) m (zeroed mem at)
                      ≡ some (false, zeroed mem k))))
    unfolding fill_pages
    fill_pages_lem zero i at g e s h = inl (ap (λ k. some (true, zeroed mem k)) (omega arith))
    fill_pages_lem (suc n) i at g e s h =
        let left = (u.copy_to_user (zeroed mem at) at (zeroes m)).0 in
        let page : m ≡ page_size = g (omega arith) in
        let here : i * page_size % 2 ^ 64 ≡ at = omega arith in
        let copied = copy_chunk_lem mem at m m (omega arith) (omega arith) in
        elim (Bool-cases (left == 0)) [
          | inl whole ↦
              let next : at + (m - left) ≡ at + page_size = ground arith in
              let total : at + page_size + n * page_size ≡ at + suc n * page_size = omega arith in
              rw (here, copied, whole, next)
                (rw total at (
                  fill_pages_lem n (i + 1) (at + page_size) (λ _. page) (omega arith) (omega arith)
                    (omega arith)))
          | inr cut ↦
              let fault : left ≢ 0 = ground arith in
              inr (
                (zeroed mem at, at, zeroes m, fault),
                (at + (m - left), omega arith, rw (here, copied, cut)),
              )
        ]

    fill_rest_lem :
        (count i at rem : ℕ)
        → rem ≤ m
        → at ≡ i * page_size
        → at + rem ≡ count
        → count < 2 ^ 31
        → count ≤ length mem
        → (fill_rest u page_size count (zeroes m) i rem (zeroed mem at)
            ≡ some (pos count, zeroed mem count))
          ⊎ (Faults
              × ((k : ℕ) × (k ≤ count)
                  × (fill_rest u page_size count (zeroes m) i rem (zeroed mem at)
                      ≡ some (efault, zeroed mem k))))
    unfolding fill_rest
    fill_rest_lem count i at rem f e total s h =
        let left = (u.copy_to_user (zeroed mem at) at (zeroes rem)).0 in
        let here : i * page_size % 2 ^ 64 ≡ at = omega arith in
        let status : to_int count ≡ pos count = ground arith in
        let copied = copy_chunk_lem mem at m rem f (omega arith) in
        elim (Bool-cases (rem == 0)) [
          | inl none_left ↦ let all : at ≡ count = ground arith in inl (rw (none_left, status, all))
          | inr some_left ↦ elim (Bool-cases (left == 0)) [
            | inl whole ↦
                let next : at + (rem - left) ≡ count = ground arith in
                inl (rw (some_left, here, copied, whole, next, status))
            | inr cut ↦
                let fault : left ≢ 0 = ground arith in
                inr (
                  (zeroed mem at, at, zeroes rem, fault),
                  (at + (rem - left), omega arith, rw (some_left, here, copied, cut)),
                )
          ]
        ]

  -- A read of fewer than 2^31 bytes into a buffer that holds them, with the allocation done: either
  -- it returns the count and the bytes asked for are all zero, or some copy to the user faults, the
  -- result is -EFAULT, and no more than a first part of those bytes is zeroed. The buffer of zeroes
  -- is never read past its end, and no other byte of the user's memory changes.
  pub czero_read_lem :
      (mem : List ℕ) (page_size count : ℕ)
      → 0 < page_size
      → count < 2 ^ 31
      → count ≤ length mem
      → (czero_read u page_size true count mem ≡ some (pos count, zeroed mem count))
        ⊎ (Faults
            × ((k : ℕ) × (k ≤ count)
                × (czero_read u page_size true count mem ≡ some (efault, zeroed mem k))))
  unfolding czero_read
  czero_read_lem mem page_size count p s h =
      let m = min page_size count in
      let loops = count / page_size in
      let rem = count % page_size in
      let whole : loops * page_size + rem ≡ count = omega arith in
      let size : to_size (to_int (if ltb page_size count then page_size else count)) ≡ m =
        ground arith in
      let turns : pos_part (to_int loops) ≡ loops = ground arith in
      let left : to_size (to_int rem) ≡ rem = ground arith in
      let start : zeroed mem 0 ≡ mem = overwrite-nil mem 0 in
      elim (fill_pages_lem mem page_size m loops 0 0
        (λ some_turn. omega (arith, at_least_one loops page_size some_turn)) (omega arith)
        (omega arith) (omega arith)) [
          | inl filled ↦
              elim (fill_rest_lem mem page_size m count loops (0 + loops * page_size) rem
                (ground arith) (omega arith) (omega arith) s h) [
                  | inl done ↦ inl (rw (size, turns, left, rw start at filled, done))
                  | inr (fault, (k, few, cut)) ↦
                      inr (fault, (k, few, rw (size, turns, left, rw start at filled, cut)))
                ]
          | inr (fault, (k, few, cut)) ↦
              inr (fault, (k, omega arith, rw (size, turns, left, rw start at cut)))
        ]

  -- The same of the read of cz_miscdrv.c, which returns one page at most.
  pub czero_read_page_lem :
      (mem : List ℕ) (page_size count : ℕ)
      → page_size < 2 ^ 31
      → min page_size count ≤ length mem
      → (czero_read_page u page_size true count mem
          ≡ some (pos (min page_size count), zeroed mem (min page_size count)))
        ⊎ (Faults
            × ((k : ℕ) × (k ≤ min page_size count)
                × (czero_read_page u page_size true count mem ≡ some (efault, zeroed mem k))))
  unfolding czero_read_page
  czero_read_page_lem mem page_size count s h =
      let n = min page_size count in
      let left = (u.copy_to_user mem 0 (zeroes n)).0 in
      let size : (if ltb page_size count then page_size else count) ≡ n = ground arith in
      let status : to_int n ≡ pos n = ground arith in
      let start : zeroed mem 0 ≡ mem = overwrite-nil mem 0 in
      let copied = rw start at (copy_chunk_lem mem 0 n n (omega arith) (omega arith)) in
      elim (Bool-cases (left == 0)) [
        | inl whole ↦
            let all : 0 + (n - left) ≡ n = ground arith in
            inl (rw (size, copied, whole, all, status))
        | inr cut ↦
            let fault : left ≢ 0 = ground arith in
            inr ((mem, 0, zeroes n, fault), (0 + (n - left), omega arith, rw (size, copied, cut)))
      ]
