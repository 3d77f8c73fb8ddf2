-- ===== src/Kthread/Tests.antt =====
-- The thread's theorem at the thread that is told to stop just before it sleeps.
use l3_dd_trg.Base.{◌≡◌, refl, false, [], ◌∷◌}
use l3_dd_trg.Kthread.{Thread, testing, asleep, ktdemo_exit, react_all, run_for, runs}

abbrev started : Thread
started = record { place = testing; should_stop = false; signal_pending = false }

stays_asleep : (run_for 6 (ktdemo_exit (react_all started (runs ∷ [])))).place ≡ asleep
unfolding run_for ktdemo_exit react_all
stays_asleep = refl
