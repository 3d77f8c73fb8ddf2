-- ===== src/Sleepy/Wake.antt =====
-- Whom a write of sleepy_waitq/slpy.c wakes: the wait queue, with the module's parameter
-- `exclusive_wakeup` as each reader found it.
use l3_dd_trg.Base.{
  ℕ, zero, suc, ◌+◌, ◌-◌, ◌≡◌, refl, sym, ap, ◌∙◌, Bool, true, false, List, [], ◌∷◌, ◌++◌,
  append-nil, append_assoc, length, arith, if◌then◌else◌,
}

-- How many of the readers in a queue wait exclusively, and how many do not.
abbrev pub exclusive : List Bool → ℕ
exclusive [] = 0
exclusive (e ∷ es) = let more = exclusive es in if e then 1 + more else more

abbrev pub shared : List Bool → ℕ
shared [] = 0
shared (e ∷ es) = let more = shared es in if e then more else 1 + more

-- The kernel's `wake_up_interruptible`: the readers that still sleep after it. It wakes all that do
-- not wait exclusively, and one of those that do.
pub record WaitQueue : Type 0 where
  pub wake_up : List Bool → List Bool
  pub wake_up-exclusive : (q : List Bool) → exclusive (wake_up q) ≡ exclusive q - 1
  pub wake_up-shared : (q : List Bool) → shared (wake_up q) ≡ 0

-- The driver: `data_present`, the readers that sleep, the number of those that returned.
pub record Device : Type 0 where
  pub data_present : Bool
  pub asleep : List Bool
  pub served : ℕ

-- A call of `sleepy_read` up to its sleep, or to its end.
unfoldable pub arrive : Device → Bool → Device
arrive d exclusive_wakeup =
    if d.data_present
    then record d { served = d.served + 1 }
    else record d { asleep = d.asleep ++ exclusive_wakeup ∷ [] }

unfoldable pub arrive_all : Device → List Bool → Device
unfolding arrive
arrive_all d [] = d
arrive_all d (e ∷ es) = arrive_all (arrive d e) es

module _ (w : WaitQueue) where
  -- `sleepy_write`; a reader that is woken finds the data and returns.
  unfoldable pub wake : Device → Device
  wake d = record {
    data_present = true;
    asleep = w.wake_up d.asleep;
    served = d.served + (length d.asleep - length (w.wake_up d.asleep));
  }

  -- so many writes
  unfoldable pub wake_all : ℕ → Device → Device
  unfolding wake
  wake_all zero d = d
  wake_all (suc n) d = wake_all n (wake d)

length-exclusive : (q : List Bool) → length q ≡ exclusive q + shared q
length-exclusive [] = refl
length-exclusive (true ∷ q) = omega (arith, length-exclusive q)
length-exclusive (false ∷ q) = omega (arith, length-exclusive q)

arrive_all-asleep :
    (d : Device) (es : List Bool)
    → d.data_present ≡ false
    → arrive_all d es ≡ record d { asleep = d.asleep ++ es }
unfolding arrive_all arrive
arrive_all-asleep d [] h = ap (λ q. record d { asleep = q }) (sym (append-nil d.asleep))
arrive_all-asleep d (e ∷ es) h =
    let slept : arrive d e ≡ record d { asleep = d.asleep ++ e ∷ [] } = rw h refl in
    ap (λ c. arrive_all c es) slept
    ∙ arrive_all-asleep (record d { asleep = d.asleep ++ e ∷ [] }) es h
    ∙ ap (λ q. record d { asleep = q }) (append_assoc d.asleep (e ∷ []) es)

module _ (w : WaitQueue) where
  wake_lem :
      (d : Device)
      → (exclusive (wake w d).asleep ≡ exclusive d.asleep - 1)
        × (shared (wake w d).asleep ≡ 0)
        × ((wake w d).served + length (wake w d).asleep ≡ d.served + length d.asleep)
        × ((wake w d).data_present ≡ true)
  unfolding wake
  wake_lem d =
      let one = w.wake_up-exclusive d.asleep in
      let none_shared = w.wake_up-shared d.asleep in
      (
        one,
        none_shared,
        omega (
          arith,
          one,
          none_shared,
          length-exclusive d.asleep,
          length-exclusive (w.wake_up d.asleep),
        ),
        refl,
      )

  wake_all_lem :
      (n : ℕ) (d : Device)
      → shared d.asleep ≡ 0
      → d.data_present ≡ true
      → (exclusive (wake_all w n d).asleep ≡ exclusive d.asleep - n)
        × (shared (wake_all w n d).asleep ≡ 0)
        × ((wake_all w n d).served + length (wake_all w n d).asleep ≡ d.served + length d.asleep)
        × ((wake_all w n d).data_present ≡ true)
  unfolding wake_all
  wake_all_lem zero d s p = (omega arith, s, refl, p)
  wake_all_lem (suc n) d s p =
      let first = wake_lem d in
      let rest = wake_all_lem n (wake w d) first.1 first.3 in
      (omega (arith, first.0, rest.0), rest.1, rest.2 ∙ first.2, rest.3)

  -- Readers come to the idle device, each with the parameter as it finds it, and then n + 1 writes:
  -- every reader that does not wait exclusively has returned, and one of the exclusive readers for
  -- each write; the others sleep on, although there is data, while a reader that comes now returns
  -- at once.
  pub wake_all-arrive_all :
      (es : List Bool) (n : ℕ) (late : Bool)
      → let idle : Device = record { data_present = false; asleep = []; served = 0 } in
        let after = wake_all w (suc n) (arrive_all idle es) in
        (exclusive after.asleep ≡ exclusive es - suc n)
        × (shared after.asleep ≡ 0)
        × (after.served ≡ length es - (exclusive es - suc n))
        × (arrive after late ≡ record after { served = after.served + 1 })
  unfolding wake_all arrive
  wake_all-arrive_all es n late =
      let idle : Device = record { data_present = false; asleep = []; served = 0 } in
      let came : arrive_all idle es ≡ record idle { asleep = es } =
        arrive_all-asleep idle es refl in
      let first = wake_lem (record idle { asleep = es }) in
      let rest = wake_all_lem n (wake w (record idle { asleep = es })) first.1 first.3 in
      let after = wake_all w n (wake w (record idle { asleep = es })) in
      let all : after.served ≡ length es - (exclusive es - suc n) = omega (
        arith,
        first.0,
        first.2,
        rest.0,
        rest.1,
        rest.2,
        length-exclusive after.asleep,
        length-exclusive es,
      ) in
      rw came (omega (arith, first.0, rest.0), rest.1, all, rw rest.3 refl)
