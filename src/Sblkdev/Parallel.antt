-- ===== src/Sblkdev/Parallel.antt =====
-- Several requests in `process_request` of blockdrv/sblkdev/device.c at once: the driver takes no lock,
-- so the turns of their loops `rq_for_each_segment` mix. A step is one turn, the copy of one segment.
pub mod Resume
pub mod Apart
pub mod Moves
pub mod Laid
pub mod Mixed
use l3_dd_trg.Base.{
  ℕ, ◌+◌, ◌%◌, ◌^◌, Bool, false, Option, some, List, [], ◌∷◌, ◌++◌, length, get_or, set, map, ◌>>=◌,
}
use l3_dd_trg.Sblkdev.{Device, Request, to_bytes, clamp_len, copy_segment}

-- The locals of one call: `pos`, `*nr_bytes`, and the segments that the loop has yet to visit and
-- those behind it.
pub record Going : Type 0 where
  pub is_write : Bool
  pub at : ℕ
  pub nr_bytes : ℕ
  pub ahead : List (List ℕ)
  pub behind : List (List ℕ)

unfoldable pub begin : Request → Going
begin rq = record {
  is_write = rq.is_write;
  at = to_bytes rq.sector;
  nr_bytes = 0;
  ahead = rq.segments;
  behind = [];
}

-- A turn at these segments; a loop that is over stays where it is.
unfoldable pub turn_at : ℕ → List ℕ → Going → List (List ℕ) → Option (List ℕ × Going)
turn_at dev_size store g [] = some (store, g)
turn_at dev_size store g (buf ∷ rest) =
    let len = clamp_len dev_size g.at (length buf) in
    copy_segment g.is_write store g.at buf len >>= λ (store', buf'). some (
      store',
      record g {
        at = (g.at + len) % 2 ^ 64;
        nr_bytes = (g.nr_bytes + len) % 2 ^ 32;
        ahead = rest;
        behind = g.behind ++ buf' ∷ [];
      },
    )

unfoldable pub segment_turn : ℕ → List ℕ → Going → Option (List ℕ × Going)
segment_turn dev_size store g = turn_at dev_size store g g.ahead

-- The device's bytes, which all calls share, and the calls.
pub record Busy : Type 0 where
  pub store : List ℕ
  pub calls : List Going

abbrev pub idle : Going
idle = record { is_write = false; at = 0; nr_bytes = 0; ahead = []; behind = [] }

-- The i-th call goes on.
unfoldable pub go_on : ℕ → Busy → ℕ → Option Busy
go_on dev_size s i = segment_turn dev_size s.store (get_or s.calls i idle) >>= λ (store', g).
    some (record { store = store'; calls = set s.calls i g })

-- The calls go on in this order.
unfoldable pub go_all : ℕ → Busy → List ℕ → Option Busy
go_all dev_size s [] = some s
go_all dev_size s (i ∷ turns) = go_on dev_size s i >>= λ s'. go_all dev_size s' turns

-- All of them have just been called.
unfoldable pub begin_all : Device → List Request → Busy
begin_all dev rqs = record { store = dev.store; calls = map begin rqs }
