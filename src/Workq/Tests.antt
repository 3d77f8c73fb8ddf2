-- ===== src/Workq/Tests.antt =====
-- A run of workq_slpydrv.c that ends well, and its driver.
use l3_dd_trg.Base.{◌≡◌, ◌≢◌, ◌↔◌, refl, true, false, none, List, [], ◌∷◌}
use l3_dd_trg.Workq.{
  Driver, Happening, work_starts, timer_fires, unloaded, workq_slpydrv_cleanup_module, react,
  react_all,
}
use l3_dd_trg.Workq.Unload.{cleanup_safe_iff}

abbrev busy : Driver
busy = record {
  loaded = true;
  work_queued = true;
  work_running = false;
  timer_active = true;
  data_present = true;
}

unloaded_too_early : react_all busy (unloaded ∷ timer_fires ∷ work_starts ∷ []) ≡ none
unfolding react_all react
unloaded_too_early = refl

cleanup_safe_iff_example :
    ((hs : List Happening) → react_all (workq_slpydrv_cleanup_module busy) hs ≢ none)
    ↔ ((true ≡ false) × (false ≡ false))
cleanup_safe_iff_example = cleanup_safe_iff busy
