-- ===== src/Sleepy.antt =====
-- sleepy_waitq/slpy.c: readers sleep on a wait queue until a writer says that there is data.
-- The readers and writers of the device are a system that moves in steps, in any order.
pub mod Waiting
pub mod Wake
pub mod Programs
pub mod Module
mod Tests
use l3_dd_trg.Base.{
  ℕ, ◌<◌, Bool, true, false, List, [], ◌∷◌, ◌++◌, length, get_or, set, if◌then◌else◌,
}
use l3_dd_trg.Base.Int.{ℤ, pos, eintr}

-- Where a call of `sleepy_read` stands: at the test of its loop, in the wait, both with its `count`,
-- or returned.
pub data Phase : Type 0 where
  testing waiting : ℕ → Phase
  returned : ℤ → Phase

-- `data_present` is not 0; the calls of `sleepy_read`, the oldest first.
pub record System : Type 0 where
  pub data_present : Bool
  pub readers : List Phase

-- What the test does, and what the wait does, which ends without an error once there is data.
unfoldable pub sleepy_read : Bool → Phase → Phase
sleepy_read data_present (testing count) =
    if data_present then returned (pos count) else waiting count
sleepy_read data_present (waiting count) = if data_present then testing count else waiting count
sleepy_read data_present (returned r) = returned r

-- A signal ends a wait.
unfoldable pub interrupt : Phase → Phase
interrupt (testing count) = testing count
interrupt (waiting count) = returned eintr
interrupt (returned r) = returned r

unfoldable pub sleepy_write : System → ℕ → ℤ × System
sleepy_write s count = (pos count, record s { data_present = true })

abbrev with_reader : System → ℕ → (Phase → Phase) → System
with_reader s i f = record s { readers = set s.readers i (f (get_or s.readers i (testing 0))) }

-- One step: a call of `sleepy_read` begins, goes on or is interrupted, or a call of `sleepy_write`
-- is made.
pub data Step : System → System → Type 0 where
  begin_read :
      {s : System} (count : ℕ) → Step s (record s { readers = s.readers ++ testing count ∷ [] })
  go_on : {s : System} (i : ℕ) → Step s (with_reader s i (sleepy_read s.data_present))
  signal : {s : System} (i : ℕ) → Step s (with_reader s i interrupt)
  write : {s : System} (count : ℕ) → Step s (sleepy_write s count).1

-- Any number of steps.
pub data Steps : System → System → Type 0 where
  stay : {s : System} → Steps s s
  step : {s t u : System} → Step s t → Steps t u → Steps s u
