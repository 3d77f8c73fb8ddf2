-- ===== src/Cz/Tests.antt =====
-- A user's memory that faults from some offset on, and the reads and loads at small inputs.
use l3_dd_trg.Base.{
  ℕ, ◌-◌, ◌≡◌, ◌≤◌, ◌⊎◌, refl, true, some, List, [], ◌∷◌, ltb, length, take, arith, if◌then◌else◌,
}
use l3_dd_trg.Base.Int.{pos, efault}
use l3_dd_trg.Base.Bytes.{overwrite}
use l3_dd_trg.Cz.{UserMemory, copy_chunk, fill_pages, fill_rest, czero_read}
use l3_dd_trg.Cz.Zeroes.{Faults, zeroed, czero_read_lem}
use l3_dd_trg.Cz.Setup.{held_resource}

-- Each copy at `limit` or past it leaves out one byte.
abbrev faulty : ℕ → UserMemory
faulty limit = record {
  copy_to_user = λ mem at b. (
    if ltb at limit then 0 else 1,
    overwrite mem at (take (length b - (if ltb at limit then 0 else 1)) b),
  );
  copied = λ mem at b. refl;
}

abbrev seven : List ℕ
seven = 1 ∷ 2 ∷ 3 ∷ 4 ∷ 5 ∷ 6 ∷ 7 ∷ []

read_all : czero_read (faulty 100) 2 true 5 seven ≡ some (pos 5, 0 ∷ 0 ∷ 0 ∷ 0 ∷ 0 ∷ 6 ∷ 7 ∷ [])
unfolding czero_read fill_pages copy_chunk fill_rest
read_all = refl

read_cut : czero_read (faulty 2) 2 true 5 seven ≡ some (efault, 0 ∷ 0 ∷ 0 ∷ 4 ∷ 5 ∷ 6 ∷ 7 ∷ [])
unfolding czero_read fill_pages copy_chunk fill_rest
read_cut = refl

czero_read_lem_example :
    (czero_read (faulty 100) 2 true 5 seven ≡ some (pos 5, zeroed seven 5))
    ⊎ (Faults (faulty 100)
        × ((k : ℕ) × (k ≤ 5)
            × (czero_read (faulty 100) 2 true 5 seven ≡ some (efault, zeroed seven k))))
czero_read_lem_example =
    czero_read_lem (faulty 100) seven 2 5 (omega arith) (omega arith) (omega arith)
