-- ===== src/Disk/Machine.antt =====
-- A machine with several devices of blockdrv/sblkdev: a request goes to a disk, and its queue says on
-- which device it works.
use l3_dd_trg.Base.{
  ℕ, zero, suc, ◌<◌, ◌≡◌, ◌∙◌, refl, ap, sym, Option, none, some, List, [], ◌∷◌, length, length-set,
  get_or, set, nth, arith, ◌>>=◌,
}
use l3_dd_trg.Sblkdev.{Device, Request}
use l3_dd_trg.Sblkdev.Wiring.{
  Machine, IsWired, Limits, attach_all, attach_all-IsWired, attach_all-heap,
}
use l3_dd_trg.Disk.{answers}
use l3_dd_trg.Disk.Requests.{serve_rq, requests}
use l3_dd_trg.Disk.Several.{
  Log, Replies, requests_to, replies_from, LogWithin, serve_on, run_on, run_on-alone, HoldAll,
  HoldAll-length,
}

-- `sblkdev_queue_rq` for a request on the i-th disk; `none` is also a pointer to no device.
unfoldable pub queue_rq_on : Machine → ℕ → Request → Option (List ℕ × Machine)
queue_rq_on m i r = nth m.disks i >>= λ disk. disk.queuedata >>= λ a. nth m.heap a >>= λ dev.
    serve_rq dev r >>= λ (bytes, dev'). some (bytes, record m { heap = set m.heap a dev' })

unfoldable pub run_machine : Machine → Log → Option Replies
run_machine m [] = some []
run_machine m ((i, r) ∷ log) =
    queue_rq_on m i r >>= λ (bytes, m'). run_machine m' log >>= λ more. some ((i, bytes) ∷ more)

-- There is an entry at every place within a list.
nth-within {ℓ} : {A : Type ℓ} (xs : List A) (i : ℕ) → i < length xs → (x : A) × (nth xs i ≡ some x)
nth-within [] i h = absurd (omega arith)
nth-within (x ∷ xs) zero h = (x, refl)
nth-within (x ∷ xs) (suc i) h = nth-within xs i (omega arith)

set-IsWired :
    (m : Machine) (i : ℕ) (dev : Device)
    → IsWired m
    → IsWired (record m { heap = set m.heap i dev })
set-IsWired m i dev h = record {
  as_many = h.as_many ∙ sym (length-set m.heap i dev);
  tied = λ n l.
      let t = h.tied n (omega (arith, length-set m.heap i dev)) in
      record { disk = t.disk; found = t.found; own = t.own; queue = t.queue; tags = t.tags };
}

-- What is done with the answer of the device, on both sides.
one_served :
    (m : Machine) (i : ℕ) (log : Log) (o : Option (List ℕ × Device))
    → ((dev : Device)
        → run_machine (record m { heap = set m.heap i dev }) log
          ≡ run_on requests (set m.heap i dev) log)
    → ((o >>= λ (bytes, dev). some (bytes, record m { heap = set m.heap i dev })) >>= λ (bytes, m').
        run_machine m' log >>= λ more. some ((i, bytes) ∷ more))
      ≡ ((o >>= λ (bytes, dev). some (bytes, set m.heap i dev)) >>= λ (bytes, heap).
          run_on requests heap log >>= λ more. some ((i, bytes) ∷ more))
one_served m i log none rest = refl
one_served m i log (some (bytes, dev)) rest =
    ap (λ q. q >>= λ more. some ((i, bytes) ∷ more)) (rest dev)

-- Through the pointers of the disks, the machine serves as the list of its devices does.
run_machine-run_on :
    (log : Log) (m : Machine) (size : ℕ → ℕ)
    → IsWired m
    → LogWithin (length m.heap) size log
    → run_machine m log ≡ run_on requests m.heap log
unfolding run_machine run_on queue_rq_on serve_on
run_machine-run_on [] m size h w = refl
run_machine-run_on ((i, r) ∷ log) m size h (on, fits, w) =
    let t = h.tied i on in
    let (dev, found) = nth-within m.heap i on in
    rw (t.found, t.queue, found)
      (one_served m i log (serve_rq dev r) (λ dev'.
        run_machine-run_on log (record m { heap = set m.heap i dev' }) size (set-IsWired m i dev' h)
          (rw (length-set m.heap i dev') w)))

-- The devices hold these disks.
abbrev pub HoldDisks : List Device → List (List ℕ) → Type 0
HoldDisks devs disks = HoldAll requests devs disks

abbrev pub no_devices : Machine
no_devices = record { heap = []; disks = [] }

-- Devices that hold disks are added to a machine, whatever the limits of their queues. Requests, each
-- within one of the disks, are queued at the disks in any order: through the pointers of queue and
-- disk all of them succeed, and each disk answers those that are queued at it as it would alone.
pub attach_all-alone :
    (block_size : Option ℕ) (limits : Limits) (devs : List Device) (disks : List (List ℕ))
    (log : Log)
    → HoldDisks devs disks
    → LogWithin (length disks) (λ i. length (get_or disks i [])) log
    → (out : Replies) × (run_machine (attach_all block_size limits no_devices devs) log ≡ some out)
      × ((i : ℕ)
          → i < length disks
          → replies_from i out ≡ answers (get_or disks i []) (requests_to i log))
attach_all-alone block_size limits devs disks log h w =
    let m = attach_all block_size limits no_devices devs in
    let wired =
      attach_all-IsWired block_size limits devs no_devices
        (record { as_many = refl; tied = λ i l. absurd (omega (arith, l)) }) in
    let heap : m.heap ≡ devs = attach_all-heap block_size limits devs no_devices in
    let (out, ran, alone) = run_on-alone requests log devs disks h w in
    (
      out,
      run_machine-run_on log m (λ i. length (get_or disks i [])) wired
            (rw (heap, HoldAll-length requests devs disks h) w)
          ∙ ap (λ devs'. run_on requests devs' log) heap
          ∙ ran,
      alone,
    )
