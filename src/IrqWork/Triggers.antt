-- ===== src/IrqWork/Triggers.antt =====
-- How often the work of irq_work.c runs, and when it runs too late.
use l3_dd_trg.Base.{
  ℕ, ◌+◌, ◌≤◌, ◌≡◌, ◌↔◌, refl, Bool, true, false, List, [], ◌∷◌, length, if◌then◌else◌, arith,
}
use l3_dd_trg.IrqWork.{Work, my_irq_work, interrupt, intr_drv_init, intr_drv_exit}

-- before the setup
abbrev pub idle : Work
idle = record { loaded = true; queued = false; ran = 0; slept = 0; strayed = 0 }

-- runs that were made or are queued
abbrev due : Work → ℕ
due w = w.ran + (if w.queued then 1 else 0)

intr_drv_init_lem :
    (sleeps : Bool) (triggers : List Bool) (w : Work)
    → w.loaded ≡ true
    → (due w ≤ due (intr_drv_init sleeps triggers w))
      × (due (intr_drv_init sleeps triggers w) ≤ due w + length triggers)
      × ((intr_drv_init sleeps triggers w).loaded ≡ true)
      × ((intr_drv_init sleeps triggers w).strayed ≡ w.strayed)
unfolding intr_drv_init
intr_drv_init_lem sleeps [] w h = (omega arith, omega arith, h, refl)
intr_drv_init_lem sleeps (true ∷ more) w h =
    unfold interrupt in
    rw h (
      let ih = intr_drv_init_lem sleeps more (interrupt sleeps (record w { queued = true })) in
      ground arith)
intr_drv_init_lem sleeps (false ∷ more) w h =
    let ih = intr_drv_init_lem sleeps more (record w { queued = true }) h in ground arith

one_is_due :
    (sleeps first : Bool) (more : List Bool) → 1 ≤ due (intr_drv_init sleeps (first ∷ more) idle)
unfolding intr_drv_init interrupt my_irq_work
one_is_due sleeps true more =
    let after = interrupt sleeps (record idle { queued = true }) in
    omega (arith, (intr_drv_init_lem sleeps more after refl).0)
one_is_due sleeps false more =
    omega (arith, (intr_drv_init_lem sleeps more (record idle { queued = true }) refl).0)

strays_iff :
    (sleeps : Bool) (w : Work)
    → w.loaded ≡ true
    → w.strayed ≡ 0
    → ((interrupt sleeps (intr_drv_exit w)).strayed ≡ 0) ↔ (w.queued ≡ false)
unfolding interrupt intr_drv_exit
strays_iff sleeps w l s = (ground arith, ground arith)

-- One trigger or more, with interrupts between them or not: the work has run, or is queued to run,
-- once at least and once for each trigger at most. If it is still queued when the module is removed,
-- and only then, the next interrupt calls code that is gone.
intr_drv_init-interrupt :
    (sleeps first : Bool) (more : List Bool)
    → let w = intr_drv_init sleeps (first ∷ more) idle in
      (1 ≤ w.ran + (if w.queued then 1 else 0))
      × (w.ran + (if w.queued then 1 else 0) ≤ length (first ∷ more))
      × (((interrupt sleeps (intr_drv_exit w)).strayed ≡ 0) ↔ (w.queued ≡ false))
intr_drv_init-interrupt sleeps first more =
    let all = intr_drv_init_lem sleeps (first ∷ more) idle refl in
    (
      one_is_due sleeps first more,
      omega (arith, all.1),
      strays_iff sleeps (intr_drv_init sleeps (first ∷ more) idle) all.2 all.3,
    )
