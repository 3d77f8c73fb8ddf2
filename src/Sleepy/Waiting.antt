-- ===== src/Sleepy/Waiting.antt =====
-- Who is served and who waits at the device of sleepy_waitq/slpy.c.
use l3_dd_trg.Base.{
  ℕ, zero, suc, ◌+◌, ◌≡◌, ◌≤◌, Bool, true, false, List, [], ◌∷◌, ◌++◌, get_or, set, refl, ap, arith,
}
use mathlib.Core.Bool.{true≢false}
use l3_dd_trg.Base.Int.{eintr}
use l3_dd_trg.Sleepy.{
  Phase, testing, waiting, returned, System, sleepy_read, interrupt, sleepy_write, Step, begin_read,
  go_on, signal, write, Steps, stay, step,
}

-- A call that has not returned, or only with -EINTR.
abbrev IsUnserved : Phase → Type 0
IsUnserved (testing count) = Unit
IsUnserved (waiting count) = Unit
IsUnserved (returned r) = r ≡ eintr

abbrev pub AllUnserved : List Phase → Type 0
AllUnserved [] = Unit
AllUnserved (p ∷ ps) = IsUnserved p × AllUnserved ps

AllUnserved-append :
    (ps : List Phase) (count : ℕ) → AllUnserved ps → AllUnserved (ps ++ testing count ∷ [])
AllUnserved-append [] count h = (tt, tt)
AllUnserved-append (p ∷ ps) count h = (h.0, AllUnserved-append ps count h.1)

-- A call that moves without being served.
AllUnserved-set :
    (ps : List Phase) (i : ℕ) (f : Phase → Phase)
    → ((p : Phase) → IsUnserved p → IsUnserved (f p))
    → AllUnserved ps
    → AllUnserved (set ps i (f (get_or ps i (testing 0))))
AllUnserved-set [] i f k h = h
AllUnserved-set (p ∷ ps) zero f k h = (k p h.0, h.1)
AllUnserved-set (p ∷ ps) (suc i) f k h = (h.0, AllUnserved-set ps i f k h.1)

-- Without data no call is served.
abbrev Ok : System → Type 0
Ok s = s.data_present ≡ false → AllUnserved s.readers

sleepy_read-IsUnserved :
    {present : Bool} (p : Phase)
    → present ≡ false
    → IsUnserved p
    → IsUnserved (sleepy_read present p)
unfolding sleepy_read
sleepy_read-IsUnserved (testing count) e h = rw e tt
sleepy_read-IsUnserved (waiting count) e h = rw e tt
sleepy_read-IsUnserved (returned r) e h = h

interrupt-IsUnserved : (p : Phase) → IsUnserved p → IsUnserved (interrupt p)
unfolding interrupt
interrupt-IsUnserved (testing count) h = tt
interrupt-IsUnserved (waiting count) h = refl
interrupt-IsUnserved (returned r) h = h

Step-Ok : {s t : System} → Step s t → Ok s → Ok t
unfolding sleepy_write
Step-Ok {s} (begin_read count) h e = AllUnserved-append s.readers count (h e)
Step-Ok {s} (go_on i) h e =
    AllUnserved-set s.readers i (sleepy_read s.data_present) (λ p. sleepy_read-IsUnserved p e) (h e)
Step-Ok {s} (signal i) h e = AllUnserved-set s.readers i interrupt interrupt-IsUnserved (h e)
Step-Ok {s} (write count) h e = absurd (true≢false e)

Steps-Ok : {s t : System} → Steps s t → Ok s → Ok t
Steps-Ok stay h = h
Steps-Ok (step one more) h = Steps-Ok more (Step-Ok one h)

abbrev pub start : System
start = record { data_present = false; readers = [] }

-- Whatever the order of steps, as long as nothing was written every call of `sleepy_read` is at its
-- test, waits, or has returned -EINTR.
pub unserved_until_written :
    {t : System} → Steps start t → t.data_present ≡ false → AllUnserved t.readers
unserved_until_written steps = Steps-Ok steps (λ _. tt)

abbrev weight : Phase → ℕ
weight (testing count) = 0
weight (waiting count) = 1
weight (returned r) = 0

-- how many calls wait
abbrev pub waiters : List Phase → ℕ
waiters [] = 0
waiters (p ∷ ps) = weight p + waiters ps

waiters-append : (ps : List Phase) (count : ℕ) → waiters (ps ++ testing count ∷ []) ≡ waiters ps
waiters-append [] count = refl
waiters-append (p ∷ ps) count = ap (λ n. weight p + n) (waiters-append ps count)

waiters-set :
    (ps : List Phase) (i : ℕ) (f : Phase → Phase)
    → ((p : Phase) → weight (f p) ≤ weight p)
    → waiters (set ps i (f (get_or ps i (testing 0)))) ≤ waiters ps
waiters-set [] i f k = omega arith
waiters-set (p ∷ ps) zero f k = omega (arith, k p)
waiters-set (p ∷ ps) (suc i) f k = omega (arith, waiters-set ps i f k)

sleepy_read_lighter :
    {present : Bool} (p : Phase) → present ≡ true → weight (sleepy_read present p) ≤ weight p
unfolding sleepy_read
sleepy_read_lighter (testing count) e = rw e (omega arith)
sleepy_read_lighter (waiting count) e = rw e (omega arith)
sleepy_read_lighter (returned r) e = omega arith

interrupt_lighter : (p : Phase) → weight (interrupt p) ≤ weight p
unfolding interrupt
interrupt_lighter (testing count) = omega arith
interrupt_lighter (waiting count) = omega arith
interrupt_lighter (returned r) = omega arith

Step-waiters :
    {s t : System}
    → Step s t
    → s.data_present ≡ true
    → (t.data_present ≡ true) × (waiters t.readers ≤ waiters s.readers)
unfolding sleepy_write
Step-waiters {s} (begin_read count) e = (e, omega (arith, waiters-append s.readers count))
Step-waiters {s} (go_on i) e =
    (e, waiters-set s.readers i (sleepy_read s.data_present) (λ p. sleepy_read_lighter p e))
Step-waiters {s} (signal i) e = (e, waiters-set s.readers i interrupt interrupt_lighter)
Step-waiters {s} (write count) e = (refl, omega arith)

-- Once something was written, whatever the order of steps, there is data for ever, and no further
-- call of `sleepy_read` begins to wait: the number of those that wait never grows.
pub nobody_sleeps_again :
    {s t : System}
    → Steps s t
    → s.data_present ≡ true
    → (t.data_present ≡ true) × (waiters t.readers ≤ waiters s.readers)
nobody_sleeps_again stay e = (e, omega arith)
nobody_sleeps_again (step one more) e =
    let first = Step-waiters one e in
    let rest = nobody_sleeps_again more first.0 in (rest.0, omega (arith, first.1, rest.1))
