-- ===== src/Convenient/Sizes.antt =====
-- The macros SHOW_DELTA_b, _K, _M, _G, _MG and _MGT of convenient.h, on numbers of 64 bits.
use l3_dd_trg.Base.{refl, ℕ, ◌+◌, ◌-◌, ◌*◌, ◌/◌, ◌%◌, ◌^◌, ◌≡◌, ◌≤◌, ◌<◌, arith}

-- `(hi) - (low)`
abbrev pub delta : ℕ → ℕ → ℕ
delta low hi = (hi + 2 ^ 64 - low) % 2 ^ 64

unfoldable show_delta_b : ℕ → ℕ → ℕ × ℕ × ℕ
show_delta_b low hi = (low, hi, delta low hi)

unfoldable show_delta_k : ℕ → ℕ → ℕ × ℕ × ℕ
show_delta_k low hi = (low, hi, delta low hi / 1024)

unfoldable show_delta_m : ℕ → ℕ → ℕ × ℕ × ℕ
show_delta_m low hi = (low, hi, delta low hi / 1048576)

unfoldable show_delta_g : ℕ → ℕ → ℕ × ℕ × ℕ
show_delta_g low hi = (low, hi, delta low hi / 1073741824)

unfoldable show_delta_mg : ℕ → ℕ → ℕ × ℕ × ℕ × ℕ
show_delta_mg low hi = (low, hi, delta low hi / 1048576, delta low hi / 1073741824)

-- on a machine of 64 bits
unfoldable show_delta_mgt : ℕ → ℕ → ℕ × ℕ × ℕ × ℕ × ℕ
show_delta_mgt low hi =
    (low, hi, delta low hi / 1048576, delta low hi / 1073741824, delta low hi / 1099511627776)

-- Of a low number that is not above the high one, both of 64 bits: the macros show their difference in
-- bytes and, rounded down, in each unit, so that each unit holds 1024 of the one before.
show_delta_lem :
    (low hi : ℕ)
    → low ≤ hi
    → hi < 2 ^ 64
    → let k = (show_delta_k low hi).2 in
      let (l, h, m, g, t) = show_delta_mgt low hi in
      (low + (show_delta_b low hi).2 ≡ hi)
      × (low + k * 1024 ≤ hi)
      × (hi < low + (k + 1) * 1024)
      × (m ≡ k / 1024)
      × (g ≡ m / 1024)
      × (t ≡ g / 1024)
      × ((show_delta_m low hi).2 ≡ m)
      × ((show_delta_g low hi).2 ≡ g)
      × (show_delta_mg low hi ≡ (low, hi, m, g))
unfolding show_delta_b show_delta_k show_delta_m show_delta_g show_delta_mg show_delta_mgt
show_delta_lem low hi le small =
    let d : delta low hi ≡ hi - low = omega arith in
    rw d (
      omega arith,
      omega arith,
      omega arith,
      omega arith,
      omega arith,
      omega arith,
      refl,
      refl,
      refl,
    )
