-- ===== src/Vmouse/Tests.antt =====
-- The virtual mouse's theorems at concrete inputs.
use l3_dd_trg.Base.{◌≡◌, [], ◌∷◌, length}
use l3_dd_trg.Base.Int.{pos}
use l3_dd_trg.Vmouse.{held_resource}
use l3_dd_trg.Vmouse.Reports.{
  rel_x, rel_y, sync, vms_store, coordinate, coord_gen, vms_store-coord_gen,
}

vms_store-coord_gen_example : vms_store (pos 7, pos 9) (coord_gen 1817 44) ≡ (
  pos (length (coord_gen 1817 44)),
  rel_x (coordinate 1817) ∷ rel_y (coordinate 44) ∷ sync ∷ [],
)
vms_store-coord_gen_example = vms_store-coord_gen (pos 7, pos 9) 1817 44
