-- ===== src/Sleepy/Tests.antt =====
-- Two runs of slpy.c, one that a signal ends and one that a writer ends, and the theorems at them
-- and at four readers.
use l3_dd_trg.Sleepy.Wake.{
  WaitQueue, Device, exclusive, shared, arrive, arrive_all, wake_all, wake_all-arrive_all,
}
use l3_dd_trg.Base.{ℕ, zero, suc, ◌+◌, ◌-◌, arith, replicate, ◌≡◌, refl, true, false, [], ◌∷◌}
use l3_dd_trg.Base.Int.{pos, eintr}
use l3_dd_trg.Sleepy.{
  waiting, returned, System, sleepy_read, interrupt, sleepy_write, Step, begin_read, go_on, signal,
  write, Steps, stay, step,
}
use l3_dd_trg.Sleepy.Waiting.{start, AllUnserved, unserved_until_written}

abbrev interrupted : System
interrupted = record { data_present = false; readers = returned eintr ∷ [] }

signal_run : Steps start interrupted
unfolding sleepy_read interrupt
signal_run = step (begin_read 5) (step (go_on 0) (step (signal 0) stay))

abbrev asleep : System
asleep = record { data_present = false; readers = waiting 5 ∷ [] }

abbrev written : System
written = record { data_present = true; readers = waiting 5 ∷ [] }

abbrev served : System
served = record { data_present = true; readers = returned (pos 5) ∷ [] }

write_run : Step asleep written
unfolding sleepy_write
write_run = write 3

serve_run : Steps written served
unfolding sleepy_read
serve_run = step (go_on 0) (step (go_on 0) stay)

unserved_until_written_example : AllUnserved (returned eintr ∷ [])
unserved_until_written_example = unserved_until_written signal_run refl

exclusive-replicate : (n : ℕ) → exclusive (replicate n true) ≡ n
exclusive-replicate zero = refl
exclusive-replicate (suc n) = omega (arith, exclusive-replicate n)

shared-replicate : (n : ℕ) → shared (replicate n true) ≡ 0
shared-replicate zero = refl
shared-replicate (suc n) = shared-replicate n

-- A wait queue that wakes one exclusive reader.
abbrev wait_queue : WaitQueue
wait_queue = record {
  wake_up = λ q. replicate (exclusive q - 1) true;
  wake_up-exclusive = λ q. exclusive-replicate (exclusive q - 1);
  wake_up-shared = λ q. shared-replicate (exclusive q - 1);
}

wake_all-arrive_all_example :
    let idle : Device = record { data_present = false; asleep = []; served = 0 } in
    let after = wake_all wait_queue 2 (arrive_all idle (true ∷ false ∷ true ∷ true ∷ [])) in
    (exclusive after.asleep ≡ 1)
    × (shared after.asleep ≡ 0)
    × (after.served ≡ 3)
    × (arrive after false ≡ record after { served = after.served + 1 })
wake_all-arrive_all_example =
    wake_all-arrive_all wait_queue (true ∷ false ∷ true ∷ true ∷ []) 1 false
