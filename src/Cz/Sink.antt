-- ===== src/Cz/Sink.antt =====
-- The methods of cz_enh_miscdrv.c and cz_miscdrv.c that touch no memory: the write of the zero device,
-- the null device.
use l3_dd_trg.Base.{ℕ, ◌^◌, ◌<◌, ◌≡◌, arith}
use l3_dd_trg.Base.Int.{ℤ, pos, negsuc, to_ssize}

abbrev pub enosys : ℤ
enosys = negsuc 37

unfoldable pub czero_write : ℕ → ℤ
czero_write count = enosys

unfoldable pub cnul_read : ℕ → ℤ
cnul_read count = pos 0

unfoldable pub cnul_write : ℕ → ℤ
cnul_write count = to_ssize count

-- Whatever the count: the null device is at its end, and the zero device takes nothing; the null
-- device takes all of a write of fewer than 2^63 bytes.
cnul_lem :
    (count : ℕ)
    → (cnul_read count ≡ pos 0)
      × (czero_write count ≡ enosys)
      × (count < 2 ^ 63 → cnul_write count ≡ pos count)
unfolding cnul_read czero_write cnul_write
cnul_lem count = ground arith
