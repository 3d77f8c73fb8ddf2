-- ===== src/Sbd/Tests.antt =====
-- Runs of the older RAM disk's model, and its theorems at concrete inputs.
use l3_dd_trg.Base.{◌≡◌, refl, true, false, some, [], ◌∷◌, replicate, arith}
use l3_dd_trg.Sbd.{SbdDevice, Chunk, sbd_request, device_size, held_resource}
use l3_dd_trg.Sbd.Transfer.{IsValid, IsChunk, moved_all, sbd_request_lem}

abbrev dev : SbdDevice
dev = record { size = 1024; store = replicate 1024 7 }

abbrev dev-IsValid : IsValid dev
dev-IsValid = record { allocated = refl; small = omega arith }

abbrev write_one : Chunk
write_one = record { sector = 1; nsect = 1; buffer = replicate 512 9; is_write = true }

abbrev read_one : Chunk
read_one = record { sector = 1; nsect = 1; buffer = replicate 512 0; is_write = false }

abbrev past_end : Chunk
past_end = record write_one { sector = 2 }

write_one-IsChunk : IsChunk write_one
write_one-IsChunk = record { whole = refl; near = omega arith }

read_one-IsChunk : IsChunk read_one
read_one-IsChunk = record { whole = refl; near = omega arith }

past_end-IsChunk : IsChunk past_end
past_end-IsChunk = record { whole = refl; near = omega arith }

sbd_request_lem_example :
    (sbd_request 512 dev (past_end ∷ read_one ∷ [])
      ≡ some (moved_all dev (past_end ∷ read_one ∷ [])))
    × IsValid (moved_all dev (past_end ∷ read_one ∷ [])).0
sbd_request_lem_example =
    sbd_request_lem dev (past_end ∷ read_one ∷ []) dev-IsValid
      (past_end-IsChunk, (read_one-IsChunk, tt))

default_size : device_size 1024 512 ≡ 524288
unfolding device_size
default_size = refl
