-- ===== src/Kthread.antt =====
-- kthread_demo/ktdemo.c: a kernel thread that sleeps until a signal or the module's teardown ends
-- it. The thread moves in the steps between which others may run.
pub mod Stop
mod Tests
use l3_dd_trg.Base.{
  ℕ, zero, suc, Bool, true, false, Option, none, some, List, [], ◌∷◌, if◌then◌else◌,
}
use l3_dd_trg.Base.Int.{ℤ, pos}

-- Where the thread stands: at the test of its loop; past it, and still TASK_RUNNING; TASK_INTERRUPTIBLE,
-- and not yet in `schedule`; asleep; awake again at the test for a signal; returned.
pub data Place : Type 0 where
  testing tested falling_asleep asleep awake returned : Place

-- The thread: its place, whether it has been told to stop, whether a signal is pending.
pub record Thread : Type 0 where
  pub place : Place
  pub should_stop : Bool
  pub signal_pending : Bool

-- One step of `mykt`: the test, `set_current_state`, `schedule`, the test for a signal. `schedule` puts a
-- thread to sleep that is TASK_INTERRUPTIBLE, but for a pending signal.
unfoldable pub mykt : Thread → Thread
mykt t = elim t.place [
  | testing ↦ if t.should_stop then record t { place = returned } else record t { place = tested }
  | tested ↦ record t { place = falling_asleep }
  | falling_asleep ↦
      if t.signal_pending then record t { place = awake } else record t { place = asleep }
  | asleep ↦ t
  | awake ↦ if t.signal_pending then record t { place = returned } else record t { place = testing }
  | returned ↦ t
]

-- A wake-up makes a thread TASK_RUNNING: one that is asleep is woken, one that has only said that it
-- will sleep comes back from `schedule`, and any other goes on.
abbrev pub woken : Thread → Thread
woken t = elim t.place [
  | asleep ↦ record t { place = awake }
  | falling_asleep ↦ record t { place = awake }
  | testing ↦ t
  | tested ↦ t
  | awake ↦ t
  | returned ↦ t
]

-- SIGINT or SIGQUIT is sent to the thread.
unfoldable pub signalled : Thread → Thread
signalled t = woken (record t { signal_pending = true })

-- `kthread_stop` of `ktdemo_exit`, up to its wait for the thread to return.
unfoldable pub ktdemo_exit : Thread → Thread
ktdemo_exit t = woken (record t { should_stop = true })

-- The thread that `kthread_run` starts; `none` where `get_task_struct` is given its error.
unfoldable ktdemo_init : Bool → Option (ℤ × Thread)
ktdemo_init kthread_run =
    if kthread_run
    then some (pos 0, record { place = testing; should_stop = false; signal_pending = false })
    else none

-- What may happen to the thread while the module is loaded.
pub data Happening : Type 0 where
  runs is_signalled : Happening

unfoldable pub react : Thread → Happening → Thread
unfolding mykt signalled
react t runs = mykt t
react t is_signalled = signalled t

unfoldable pub react_all : Thread → List Happening → Thread
unfolding react
react_all t [] = t
react_all t (h ∷ hs) = react_all (react t h) hs

unfoldable pub run_for : ℕ → Thread → Thread
unfolding mykt
run_for zero t = t
run_for (suc n) t = run_for n (mykt t)
