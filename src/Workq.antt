-- ===== src/Workq.antt =====
-- workq_slpydrv_plus_timer/workq_slpydrv.c: a write schedules deferred work, which starts a timer
-- that starts itself again.
pub mod Unload
pub mod Readers
mod Tests
use l3_dd_trg.Base.{
  ℕ, ◌≡◌, Bool, true, false, Option, none, some, List, [], ◌∷◌, if◌then◌else◌, ◌>>=◌,
}
use l3_dd_trg.Base.Int.{ℤ, pos}

-- The module is loaded; `ws` is queued; a worker is in `wq_func`; `timr` is active; `data_present` is 1.
pub record Driver : Type 0 where
  pub loaded : Bool
  pub work_queued : Bool
  pub work_running : Bool
  pub timer_active : Bool
  pub data_present : Bool

unfoldable pub sleepy_write : Driver → ℕ → ℤ × Driver
sleepy_write d count = (pos count, record d { work_queued = true; data_present = true })

-- The end of `wq_func`, which runs in a worker thread while others run: `mod_timer` makes the timer active.
unfoldable pub wq_func : Driver → Driver
wq_func d = record d { work_running = false; timer_active = true }

-- A worker calls `wq_func`: the kernel takes the work off its queue first.
abbrev pub start_work : Driver → Driver
start_work d = record d { work_queued = false; work_running = true }

-- The kernel takes the timer off its list before it calls `whee`.
unfoldable pub whee : Driver → Driver
whee d = record d { timer_active = true }

-- `del_timer_sync` makes the timer inactive; the work stays queued, or goes on running.
unfoldable pub workq_slpydrv_cleanup_module : Driver → Driver
workq_slpydrv_cleanup_module d = record d { loaded = false; timer_active = false }

-- What happens to the module. While it is torn down no file of it is open, so nothing is written.
pub data Happening : Type 0 where
  written : ℕ → Happening
  work_starts work_ends timer_fires unloaded : Happening

-- `none` is a call of the code of a module that is gone.
abbrev pub call : Driver → (Driver → Driver) → Option Driver
call d f = if d.loaded then some (f d) else none

unfoldable pub react : Driver → Happening → Option Driver
unfolding sleepy_write wq_func whee workq_slpydrv_cleanup_module
react d (written count) = if d.loaded then some (sleepy_write d count).1 else some d
react d work_starts =
    if d.work_running then some d else if d.work_queued then call d start_work else some d
react d work_ends = if d.work_running then call d wq_func else some d
react d timer_fires = if d.timer_active then call d whee else some d
react d unloaded = if d.loaded then some (workq_slpydrv_cleanup_module d) else some d

unfoldable pub react_all : Driver → List Happening → Option Driver
react_all d [] = some d
react_all d (h ∷ hs) = react d h >>= λ d'. react_all d' hs
