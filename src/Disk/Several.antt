-- ===== src/Disk/Several.antt =====
-- Several disks of one driver at once: requests to one of them do not touch the others.
use l3_dd_trg.Base.{
  ℕ, zero, suc, ◌<◌, ◌≡◌, ◌≢◌, ◌∙◌, refl, ap, Bool-cases, inl, inr, Option, some, List, [], ◌∷◌,
  ◌==◌, length, length-set, get_or, set, nth, get_or-set_self, get_or-set_ne, arith, if◌then◌else◌,
  ◌>>=◌,
}
use l3_dd_trg.Sblkdev.{Request}
use l3_dd_trg.Disk.{answer, updated, answers, IsWithin, BlockDriver}
use l3_dd_trg.Disk.Bytes.{length-updated}

-- Requests, each with the number of its disk, in the order in which they are served; and what each of
-- them is given.
abbrev pub Log : Type 0
Log = List (ℕ × Request)

abbrev pub Replies : Type 0
Replies = List (ℕ × List ℕ)

-- The requests to one disk, and the replies from it.
abbrev pub requests_to : ℕ → Log → List Request
requests_to i [] = []
requests_to i ((j, r) ∷ log) = let rest = requests_to i log in if j == i then r ∷ rest else rest

abbrev pub replies_from : ℕ → Replies → List (List ℕ)
replies_from i [] = []
replies_from i ((j, bytes) ∷ out) =
    let rest = replies_from i out in if j == i then bytes ∷ rest else rest

-- Every request lies on a disk that there is.
abbrev pub LogWithin : ℕ → (ℕ → ℕ) → Log → Type 0
LogWithin count size [] = Unit
LogWithin count size ((i, r) ∷ log) = (i < count) × IsWithin (size i) r × LogWithin count size log

-- What the disks answer to all requests in turn.
abbrev answers_all : List (List ℕ) → Log → Replies
answers_all disks [] = []
answers_all disks ((i, r) ∷ log) =
    let disk = get_or disks i [] in
    (i, answer disk r) ∷ answers_all (set disks i (updated disk r)) log

same_size :
    (disks : List (List ℕ)) (i : ℕ) (disk : List ℕ) (n : ℕ)
    → length disk ≡ length (get_or disks i [])
    → length (get_or (set disks i disk) n []) ≡ length (get_or disks n [])
same_size [] i disk n h = refl
same_size (d ∷ disks) zero disk zero h = h
same_size (d ∷ disks) zero disk (suc n) h = refl
same_size (d ∷ disks) (suc i) disk zero h = refl
same_size (d ∷ disks) (suc i) disk (suc n) h = same_size disks i disk n h

-- Seen from one disk, the requests to the others are not there.
answers_all-from :
    (i : ℕ) (disks : List (List ℕ)) (log : Log)
    → i < length disks
    → replies_from i (answers_all disks log) ≡ answers (get_or disks i []) (requests_to i log)
answers_all-from i disks [] h = refl
answers_all-from i disks ((j, r) ∷ log) h =
    let next = set disks j (updated (get_or disks j []) r) in
    let rest =
      answers_all-from i next log
        (omega (arith, length-set disks j (updated (get_or disks j []) r))) in
    let here = updated (get_or disks j []) r in
    elim (Bool-cases (j == i)) [
      | inl same ↦
          let e : j ≡ i = ground (arith, same) in
          let now = get_or-set_self disks i (updated (get_or disks i []) r) [] h in
          rw (same, e)
            (ap (λ out. answer (get_or disks i []) r ∷ out)
              ((rw e at (rest)) ∙ ap (λ d. answers d (requests_to i log)) now))
      | inr other ↦
          let ne : j ≢ i = ground (arith, other) in
          rw other
            (rest ∙ ap (λ d. answers d (requests_to i log)) (get_or-set_ne disks j i here [] ne))
    ]

module _ (b : BlockDriver) where
  -- One request, to the i-th of the driver's disks.
  unfoldable pub serve_on : List b.State → ℕ → Request → Option (List ℕ × List b.State)
  serve_on states i r =
      nth states i >>= λ s. b.serve s r >>= λ (bytes, s'). some (bytes, set states i s')

  unfoldable pub run_on : List b.State → Log → Option Replies
  run_on states [] = some []
  run_on states ((i, r) ∷ log) = serve_on states i r >>= λ (bytes, states').
      run_on states' log >>= λ more. some ((i, bytes) ∷ more)

  abbrev pub HoldAll : List b.State → List (List ℕ) → Type 0
  HoldAll [] [] = Unit
  HoldAll (s ∷ states) (disk ∷ disks) = b.Holds s disk × HoldAll states disks
  HoldAll _ _ = ⊥

  pub HoldAll-length :
      (states : List b.State) (disks : List (List ℕ))
      → HoldAll states disks
      → length states ≡ length disks
  HoldAll-length [] [] h = refl
  HoldAll-length [] (d ∷ disks) h = absurd h
  HoldAll-length (s ∷ states) [] h = absurd h
  HoldAll-length (s ∷ states) (d ∷ disks) h = ap suc (HoldAll-length states disks h.1)

  HoldAll-nth :
      (states : List b.State) (disks : List (List ℕ)) (i : ℕ)
      → HoldAll states disks
      → i < length disks
      → (s : b.State) × (nth states i ≡ some s) × b.Holds s (get_or disks i [])
  HoldAll-nth [] [] i h l = absurd (omega arith)
  HoldAll-nth [] (d ∷ disks) i h l = absurd h
  HoldAll-nth (s ∷ states) [] i h l = absurd h
  HoldAll-nth (s ∷ states) (d ∷ disks) zero h l = (s, refl, h.0)
  HoldAll-nth (s ∷ states) (d ∷ disks) (suc i) h l = HoldAll-nth states disks i h.1 (omega arith)

  HoldAll-set :
      (states : List b.State) (disks : List (List ℕ)) (i : ℕ) (s : b.State) (disk : List ℕ)
      → HoldAll states disks
      → b.Holds s disk
      → HoldAll (set states i s) (set disks i disk)
  HoldAll-set [] [] i s disk h k = tt
  HoldAll-set [] (d ∷ disks) i s disk h k = absurd h
  HoldAll-set (t ∷ states) [] i s disk h k = absurd h
  HoldAll-set (t ∷ states) (d ∷ disks) zero s disk h k = (k, h.1)
  HoldAll-set (t ∷ states) (d ∷ disks) (suc i) s disk h k =
      (h.0, HoldAll-set states disks i s disk h.1 k)

  run_on-answers_all :
      (log : Log) (states : List b.State) (disks : List (List ℕ)) (size : ℕ → ℕ)
      → HoldAll states disks
      → ((i : ℕ) → length (get_or disks i []) ≡ size i)
      → LogWithin (length disks) size log
      → run_on states log ≡ some (answers_all disks log)
  unfolding run_on serve_on
  run_on-answers_all [] states disks size h e w = refl
  run_on-answers_all ((i, r) ∷ log) states disks size h e (on, fits, w) =
      let disk = get_or disks i [] in
      let (s, found, held) = HoldAll-nth states disks i h on in
      let (s', served, held') = b.serve_lem s disk r held (rw (e i) fits) in
      let next =
        run_on-answers_all log (set states i s') (set disks i (updated disk r)) size
          (HoldAll-set states disks i s' (updated disk r) h held')
          (λ n. same_size disks i (updated disk r) n (length-updated disk r) ∙ e n)
          (rw (length-set disks i (updated disk r)) w) in
      rw (found, served, next) refl

  -- A driver that fills the interface has several states, which hold as many disks. Any requests, each
  -- within one of the disks, in any order: all of them succeed, and each disk answers those that are
  -- sent to it as it would alone, whatever is sent to the others.
  pub run_on-alone :
      (log : Log) (states : List b.State) (disks : List (List ℕ))
      → HoldAll states disks
      → LogWithin (length disks) (λ i. length (get_or disks i [])) log
      → (out : Replies) × (run_on states log ≡ some out)
        × ((i : ℕ)
            → i < length disks
            → replies_from i out ≡ answers (get_or disks i []) (requests_to i log))
  run_on-alone log states disks h w = (
    answers_all disks log,
    run_on-answers_all log states disks (λ i. length (get_or disks i [])) h (λ i. refl) w,
    λ i l. answers_all-from i disks log l,
  )
