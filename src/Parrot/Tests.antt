-- ===== src/Parrot/Tests.antt =====
-- A list as the kernel's FIFO, a run of the driver over it, and the theorems at that FIFO.
use l3_dd_trg.Parrot.Race.Wedged.{
  read_and_reset, in_between, emptying, was_reset, AllDeaf, reset_wedges,
}
use mathlib.Core.Bool.{false≢true}
use l3_dd_trg.Base.{
  ◌⊎◌, ℕ, ◌+◌, ◌-◌, ◌≤◌, ◌≡◌, ◌↔◌, refl, ap, Bool, true, false, List, [], ◌∷◌, ◌++◌, length,
  length-append, length-take, take_all, length-drop, take, drop, min, replicate, arith,
}
use l3_dd_trg.Base.Int.{pos, ebusy}
use l3_dd_trg.Parrot.{
  Parrot, parrot_device_read, parrot_device_open, parrot_device_close, sysfs_add_to_fifo,
}
use l3_dd_trg.Parrot.Kfifo.{Kfifo}
use l3_dd_trg.Parrot.Mailbox
use l3_dd_trg.Parrot.Setup.{held_resource}
use l3_dd_trg.Parrot.Mailbox.{Mailbox, Op, open_for, close, read, add, reset, Reply}
use l3_dd_trg.Parrot.Refine.{Holds, step, run, run_refines}
use l3_dd_trg.Parrot.Race.{
  Turn, reader, writer, testing_room, added, asking, finished, add_step, read_step, race,
}
use l3_dd_trg.Parrot.Race.Order.{Did, read_then_add, add_then_read, race_in_order}
use l3_dd_trg.Parrot.Race.Early.{early, early_read_cuts}

take-le : (n : ℕ) (xs : List ℕ) → length (take n xs) ≤ n
take-le n xs = omega (arith, length-take n xs)

-- The FIFO is its bytes, never more than 1024; what does not fit is dropped.
abbrev contents : List ℕ → List ℕ
contents f = take 1024 f

is_nil : List ℕ → Bool
is_nil [] = true
is_nil (x ∷ xs) = false

is_nil_iff : (f : List ℕ) → (is_nil f ≡ true) ↔ (contents f ≡ [])
unfolding is_nil
is_nil_iff [] = (λ _. refl, λ _. refl)
is_nil_iff (x ∷ xs) = (
  λ e. absurd (false≢true e),
  λ e. absurd (omega (arith, ap length e, length-take 1024 (x ∷ xs))),
)

put_lem :
    (f b : List ℕ)
    → length (contents f) + length b ≤ 1024
    → (length b ≡ length b) × (contents (contents f ++ b) ≡ contents f ++ b)
put_lem f b h =
    (refl, take_all 1024 (contents f ++ b) (omega (arith, length-append (contents f) b)))

to_user_lem :
    (f : List ℕ) (n : ℕ)
    → n ≤ length (contents f)
    → (min n (length (contents f)) ≡ n)
      × (take n (contents f) ≡ take n (contents f))
      × (contents (drop n (contents f)) ≡ drop n (contents f))
to_user_lem f n h = (
  omega arith,
  refl,
  take_all 1024 (drop n (contents f)) (omega (arith, length-drop n (contents f), take-le 1024 f)),
)

abbrev list_fifo : Kfifo
list_fifo = record {
  Fifo = List ℕ;
  contents = contents;
  is_empty = is_nil;
  avail = λ f. 1024 - length (contents f);
  put = λ f b. (length b, contents f ++ b);
  to_user = λ f n fault. (min n (length (contents f)), take n (contents f), drop n (contents f));
  reset = λ f. [];
  bounded = λ f. take-le 1024 f;
  is_empty_iff = is_nil_iff;
  avail_lem = λ f. refl;
  put_lem = put_lem;
  to_user_lem = to_user_lem;
  reset_lem = λ f. refl;
}

abbrev start : Parrot (List ℕ)
start = record {
  fifo = [];
  msg_len = replicate 128 0;
  idx_rd = 0;
  idx_wr = 0;
  message_read = false;
  locked = false;
  one_shot = true;
}

abbrev empty_box : Mailbox
empty_box = record { messages = []; seen = false; taken = false; one_shot = true }

start-Holds : Holds list_fifo start empty_box
start-Holds = record {
  bytes = refl;
  table = refl;
  reader = omega arith;
  writer = refl;
  room = omega arith;
  lengths = tt;
  nonempty = tt;
  seen = refl;
  taken = refl;
  one_shot = refl;
}

-- Two messages go in; a second reader is refused; one message comes out for each opening.
abbrev script : List Op
script =
    add (1 ∷ 2 ∷ [])
    ∷ add (3 ∷ [])
    ∷ open_for false
    ∷ open_for false
    ∷ read 10
    ∷ read 10
    ∷ close
    ∷ open_for false
    ∷ read 10
    ∷ []

run-script :
    run list_fifo start script
    ≡ (pos 2, [])
      ∷ (pos 1, [])
      ∷ (pos 0, [])
      ∷ (ebusy, [])
      ∷ (pos 2, 1 ∷ 2 ∷ [])
      ∷ (pos 0, [])
      ∷ (pos 0, [])
      ∷ (pos 0, [])
      ∷ (pos 1, 3 ∷ [])
      ∷ []
unfolding run step parrot_device_read parrot_device_open parrot_device_close sysfs_add_to_fifo
    is_nil
run-script = refl

run_refines_example : run list_fifo start script ≡ Mailbox.run empty_box script
run_refines_example = run_refines list_fifo script start empty_box start-Holds (omega arith)

abbrev filled : Parrot (List ℕ)
filled = record start { fifo = 5 ∷ 6 ∷ []; msg_len = 2 ∷ replicate 127 0; idx_wr = 1 }

filled-Holds : Holds list_fifo filled (record empty_box { messages = (5 ∷ 6 ∷ []) ∷ [] })
filled-Holds = record {
  bytes = refl;
  table = refl;
  reader = omega arith;
  writer = refl;
  room = omega arith;
  lengths = (refl, tt);
  nonempty = (omega arith, tt);
  seen = refl;
  taken = refl;
  one_shot = refl;
}

-- A reader gets the message at the front between the tests and the copy of a writer.
abbrev mixed : List Turn
mixed = writer ∷ writer ∷ reader ∷ writer ∷ reader ∷ writer ∷ writer ∷ reader ∷ []

abbrev newcomer : List ℕ
newcomer = 7 ∷ 8 ∷ 9 ∷ []

mixed_ends :
    (race list_fifo mixed newcomer filled testing_room asking).2 ≡ finished (pos 2) (5 ∷ 6 ∷ [])
unfolding race add_step read_step is_nil
mixed_ends = refl

race_in_order_example :
    Did list_fifo
      (race list_fifo mixed newcomer filled testing_room asking)
      (read_then_add (record empty_box { messages = (5 ∷ 6 ∷ []) ∷ [] }) 9 newcomer)
    ⊎ Did list_fifo
        (race list_fifo mixed newcomer filled testing_room asking)
        (add_then_read (record empty_box { messages = (5 ∷ 6 ∷ []) ∷ [] }) 9 newcomer)
race_in_order_example =
    race_in_order list_fifo mixed filled (5 ∷ 6 ∷ []) newcomer [] false false true 9 filled-Holds
      refl (omega arith) (omega arith) (omega arith)

early_read_cuts_example :
    let (p, w, r) = race list_fifo early newcomer start testing_room asking in
    (r ≡ finished (pos 0) [])
    × (w ≡ added (pos 3))
    × (contents p.fifo ≡ newcomer)
    × (p.idx_rd ≡ p.idx_wr)
early_read_cuts_example =
    early_read_cuts list_fifo start empty_box newcomer start-Holds refl refl (omega arith)
      (omega arith)

-- The device after such a reset: a message is put in, and read for.
abbrev afterwards : List Op
afterwards = add newcomer ∷ open_for false ∷ read 100 ∷ close ∷ add newcomer ∷ []

reset_wedges_example :
    let (p, r, s) = read_and_reset list_fifo in_between 1 filled asking emptying in
    (r ≡ finished (pos 2) (5 ∷ 6 ∷ []))
    × (s ≡ was_reset (pos 1))
    × AllDeaf afterwards (run list_fifo p afterwards)
reset_wedges_example =
    reset_wedges list_fifo filled (record empty_box { messages = (5 ∷ 6 ∷ []) ∷ [] }) (5 ∷ 6 ∷ [])
      [] 1 afterwards filled-Holds refl refl tt
