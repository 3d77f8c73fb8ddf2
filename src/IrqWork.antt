-- ===== src/IrqWork.antt =====
-- interrupts/irq_work/irq_work.c: work that is queued to run in an interrupt, which may come between
-- any two steps.
pub mod Triggers
pub mod Older
mod Tests
use l3_dd_trg.Base.{ℕ, zero, suc, ◌+◌, Bool, true, false, List, [], ◌∷◌, ◌==◌, if◌then◌else◌}
use l3_dd_trg.Base.Int.{ℤ, pos, is_zero}

-- Whether the work is queued, how often it ran, how often it tried to sleep in the interrupt, and how
-- often it was called when the module was gone.
pub record Work : Type 0 where
  pub loaded : Bool
  pub queued : Bool
  pub ran : ℕ
  pub slept : ℕ
  pub strayed : ℕ

-- `sleep_in_intrctx` is 1.
module _ (sleeps : Bool) where
  -- `my_irq_work`
  unfoldable pub my_irq_work : Work → Work
  my_irq_work w = record w { ran = w.ran + 1; slept = if sleeps then w.slept + 1 else w.slept }

  -- An interrupt: work that is queued is taken off and called.
  unfoldable pub interrupt : Work → Work
  unfolding my_irq_work
  interrupt w =
      if w.queued
      then (if w.loaded
          then my_irq_work (record w { queued = false })
          else record w { queued = false; strayed = w.strayed + 1 })
      else w

  -- The loop of `intr_drv_init`, one trigger for each entry, which says whether an interrupt comes
  -- after it; work that is queued is not queued again.
  unfoldable pub intr_drv_init : List Bool → Work → Work
  unfolding interrupt
  intr_drv_init [] w = w
  intr_drv_init (interrupted ∷ more) w =
      let triggered = record w { queued = true } in
      intr_drv_init more (if interrupted then interrupt triggered else triggered)

-- `intr_drv_exit` only logs.
unfoldable pub intr_drv_exit : Work → Work
intr_drv_exit w = record w { loaded = false }
