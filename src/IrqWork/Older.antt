-- ===== src/IrqWork/Older.antt =====
-- older/intr_ctx/intr_work.c, an older copy of interrupts/irq_work/irq_work.c that triggers its work
-- three times.
use l3_dd_trg.Base.{◌+◌, ◌≤◌, ◌≡◌, refl, Bool, true, false, [], ◌∷◌, if◌then◌else◌, arith}
use l3_dd_trg.IrqWork
use l3_dd_trg.IrqWork.{Work}
use l3_dd_trg.IrqWork.Triggers.{idle}

module _ (sleeps : Bool) where
  unfoldable pub my_irq_work : Work → Work
  my_irq_work w = record w { ran = w.ran + 1; slept = if sleeps then w.slept + 1 else w.slept }

  -- An interrupt, as for the newer copy.
  unfoldable pub interrupt : Work → Work
  unfolding my_irq_work
  interrupt w =
      if w.queued
      then (if w.loaded
          then my_irq_work (record w { queued = false })
          else record w { queued = false; strayed = w.strayed + 1 })
      else w

  -- `irq_work_queue`, and the interrupt if it comes before the next trigger.
  unfoldable pub trigger : Bool → Work → Work
  unfolding interrupt
  trigger interrupted w =
      let queued = record w { queued = true } in if interrupted then interrupt queued else queued

  -- The loop of NUM_TIMES_TRIGGER turns.
  unfoldable pub intr_drv_init : Bool → Bool → Bool → Work → Work
  unfolding trigger
  intr_drv_init first second third w = trigger third (trigger second (trigger first w))

-- `intr_drv_exit` only logs.
unfoldable pub intr_drv_exit : Work → Work
intr_drv_exit w = record w { loaded = false }

-- The older copy is the newer one with three triggers.
older-newer :
    (sleeps first second third : Bool) (w : Work)
    → (intr_drv_init sleeps first second third w
        ≡ IrqWork.intr_drv_init sleeps (first ∷ second ∷ third ∷ []) w)
      × (interrupt sleeps w ≡ IrqWork.interrupt sleeps w)
unfolding intr_drv_init IrqWork.intr_drv_init IrqWork.interrupt interrupt IrqWork.my_irq_work
older-newer sleeps first second third w = (refl, refl)

-- From a fresh load, whenever interrupts come: the work has run, or is queued to run, once at least and
-- three times at most, and each run tries to sleep exactly if the parameter says so.
runs_of_three :
    (sleeps first second third : Bool)
    → let w = intr_drv_init sleeps first second third idle in
      (1 ≤ w.ran + (if w.queued then 1 else 0))
      × (w.ran + (if w.queued then 1 else 0) ≤ 3)
      × (w.slept ≡ (if sleeps then w.ran else 0))
unfolding intr_drv_init
runs_of_three sleeps first second third = ground arith
