-- ===== src/Workq/Unload.antt =====
-- When workq_slpydrv.c may be unloaded.
use l3_dd_trg.Base.{
  ◌≡◌, ◌≢◌, ◌↔◌, refl, false, none, some, List, [], ◌∷◌, arith, Bool-cases, inl, inr,
}
use l3_dd_trg.Workq.{
  Driver, workq_slpydrv_cleanup_module, Happening, written, work_starts, work_ends, timer_fires,
  unloaded, react, react_all,
}

-- A module that is gone, with nothing queued, stays as it is.
quiet :
    (d : Driver) (h : Happening)
    → d.loaded ≡ false
    → d.work_queued ≡ false
    → d.work_running ≡ false
    → d.timer_active ≡ false
    → react d h ≡ some d
unfolding react
quiet d (written count) l w r t = ground arith
quiet d work_starts l w r t = ground arith
quiet d work_ends l w r t = ground arith
quiet d timer_fires l w r t = ground arith
quiet d unloaded l w r t = ground arith

quiet_all :
    (d : Driver) (hs : List Happening)
    → d.loaded ≡ false
    → d.work_queued ≡ false
    → d.work_running ≡ false
    → d.timer_active ≡ false
    → react_all d hs ≡ some d
unfolding react_all
quiet_all d [] l w r t = refl
quiet_all d (h ∷ hs) l w r t = rw (quiet d h l w r t) (quiet_all d hs l w r t)

-- After the teardown no sequence of happenings calls the code of the module that is gone, or goes
-- on in it, exactly if no work was queued and no worker was in wq_func when the module was torn
-- down.
pub cleanup_safe_iff :
    (d : Driver)
    → ((hs : List Happening) → react_all (workq_slpydrv_cleanup_module d) hs ≢ none)
      ↔ ((d.work_queued ≡ false) × (d.work_running ≡ false))
unfolding workq_slpydrv_cleanup_module react_all react
cleanup_safe_iff d = (forward, backward)
  where
    forward :
        ((hs : List Happening) → react_all (workq_slpydrv_cleanup_module d) hs ≢ none)
        → (d.work_queued ≡ false) × (d.work_running ≡ false)
    forward safe = elim (Bool-cases d.work_running) [
      | inl running ↦ absurd (safe (work_ends ∷ []) (rw running))
      | inr idle ↦ elim (Bool-cases d.work_queued) [
        | inl queued ↦ absurd (safe (work_starts ∷ []) (rw (idle, queued)))
        | inr empty ↦ (empty, idle)
      ]
    ]

    backward :
        (d.work_queued ≡ false) × (d.work_running ≡ false)
        → (hs : List Happening) → react_all (workq_slpydrv_cleanup_module d) hs ≢ none
    backward idle hs gone =
        let stays = quiet_all (workq_slpydrv_cleanup_module d) hs refl idle.0 idle.1 refl in
        ground arith
