-- ===== src/Kthread/Stop.antt =====
-- When the teardown of ktdemo.c ends the thread.
use l3_dd_trg.Base.{Bool, true, false}
use l3_dd_trg.Kthread.{Place, testing, tested, falling_asleep, asleep, awake, returned, Thread}

abbrev thread : Place → Bool → Bool → Thread
thread p stop signal = record { place = p; should_stop = stop; signal_pending = signal }

-- the place where a thread ends that is told to stop at a place, with a signal pending or not
abbrev last_place : Place → Bool → Place
last_place tested false = asleep
last_place tested true = returned
last_place falling_asleep _ = returned
last_place testing _ = returned
last_place asleep _ = returned
last_place awake _ = returned
last_place returned _ = returned
