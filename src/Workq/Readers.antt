-- ===== src/Workq/Readers.antt =====
-- The reads and the setup of workq_slpydrv.c.
use l3_dd_trg.Base.{
  ◌≡◌, refl, sym, ap, ◌∙◌, Bool, true, false, ◌||◌, Option, none, some, List, [], ◌∷◌,
  if◌then◌else◌, ◌>>=◌, Bool-cases, inl, inr, arith,
}
use l3_dd_trg.Base.Int.{ℤ, pos, negsuc, is_negative}
use l3_dd_trg.Workq.{
  Driver, Happening, written, work_starts, work_ends, start_work, timer_fires, unloaded, react,
  react_all, sleepy_write, wq_func, whee,
}

-- `workq_slpydrv_init_module`, with what `register_chrdev` returns: the result and the driver.
unfoldable workq_slpydrv_init_module : ℤ → ℤ × Option Driver
workq_slpydrv_init_module result = if is_negative result then (result, none) else (
  pos 0,
  some (record {
    loaded = true;
    work_queued = false;
    work_running = false;
    timer_active = false;
    data_present = false;
  }),
)

-- `sleepy_read`, and whether a signal comes: `none` is a reader that sleeps. -ERESTARTSYS is -512.
unfoldable pub sleepy_read : Driver → Bool → Option ℤ
sleepy_read d signalled =
    if d.data_present then some (pos 0) else if signalled then some (negsuc 511) else none

-- There is a write in a history, or no unload.
abbrev any_written : List Happening → Bool
any_written [] = false
any_written (written count ∷ hs) = true
any_written (work_starts ∷ hs) = any_written hs
any_written (work_ends ∷ hs) = any_written hs
any_written (timer_fires ∷ hs) = any_written hs
any_written (unloaded ∷ hs) = any_written hs

abbrev StaysLoaded : List Happening → Type 0
StaysLoaded [] = Unit
StaysLoaded (written count ∷ hs) = StaysLoaded hs
StaysLoaded (work_starts ∷ hs) = StaysLoaded hs
StaysLoaded (work_ends ∷ hs) = StaysLoaded hs
StaysLoaded (timer_fires ∷ hs) = StaysLoaded hs
StaysLoaded (unloaded ∷ hs) = ⊥

react_step :
    (d : Driver) (h : Happening)
    → d.loaded ≡ true
    → StaysLoaded (h ∷ [])
    → (d' : Driver) × (react d h ≡ some d')
      × (d'.loaded ≡ true)
      × (d'.data_present ≡ (any_written (h ∷ []) || d.data_present))
unfolding react sleepy_write wq_func whee
react_step d (written count) l k = ((sleepy_write d count).1, rw l refl, l, refl)
react_step d work_starts l k = elim (Bool-cases d.work_running) [
  | inl running ↦ (d, rw running refl, l, refl)
  | inr idle ↦ elim (Bool-cases d.work_queued) [
    | inl queued ↦ (start_work d, rw (idle, queued, l) refl, l, refl)
    | inr empty ↦ (d, rw (idle, empty) refl, l, refl)
  ]
]
react_step d work_ends l k = elim (Bool-cases d.work_running) [
  | inl running ↦ (wq_func d, rw (running, l) refl, l, refl)
  | inr idle ↦ (d, rw idle refl, l, refl)
]
react_step d timer_fires l k = elim (Bool-cases d.timer_active) [
  | inl active ↦ (whee d, rw (active, l) refl, l, refl)
  | inr idle ↦ (d, rw idle refl, l, refl)
]
react_step d unloaded l k = elim k [ ]

any_written-cons :
    (h : Happening) (hs : List Happening) (b : Bool)
    → (any_written hs || (any_written (h ∷ []) || b)) ≡ (any_written (h ∷ hs) || b)
any_written-cons (written count) hs b = ground arith
any_written-cons work_starts hs b = refl
any_written-cons work_ends hs b = refl
any_written-cons timer_fires hs b = refl
any_written-cons unloaded hs b = refl

StaysLoaded-cons :
    (h : Happening) (hs : List Happening)
    → StaysLoaded (h ∷ hs)
    → StaysLoaded (h ∷ []) × StaysLoaded hs
StaysLoaded-cons (written count) hs k = (tt, k)
StaysLoaded-cons work_starts hs k = (tt, k)
StaysLoaded-cons work_ends hs k = (tt, k)
StaysLoaded-cons timer_fires hs k = (tt, k)
StaysLoaded-cons unloaded hs k = elim k [ ]

react_all-data :
    (d : Driver) (hs : List Happening)
    → d.loaded ≡ true
    → StaysLoaded hs
    → (d' : Driver) × (react_all d hs ≡ some d')
      × (d'.data_present ≡ (any_written hs || d.data_present))
unfolding react_all
react_all-data d [] l k = (d, refl, refl)
react_all-data d (h ∷ hs) l k =
    let both = StaysLoaded-cons h hs k in
    let (d', e, l', p) = react_step d h l both.0 in
    let (d'', e', p') = react_all-data d' hs l' both.1 in
    (
      d'',
      ap (λ o. o >>= λ c. react_all c hs) e ∙ e',
      p' ∙ ap (λ b. any_written hs || b) p ∙ any_written-cons h hs d.data_present,
    )

driver_or : Driver → Option Driver → Driver
driver_or d none = d
driver_or d (some c) = c

-- From a driver that has just been loaded, whatever happens but its unloading: no code is missing,
-- and a reader that no signal disturbs reads the end of the file if anything was written, and sleeps
-- otherwise.
sleepy_read-react_all :
    (result : ℤ) (d : Driver) (hs : List Happening)
    → workq_slpydrv_init_module result ≡ (pos 0, some d)
    → StaysLoaded hs
    → (d' : Driver) × (react_all d hs ≡ some d')
      × (sleepy_read d' false ≡ (if any_written hs then some (pos 0) else none))
unfolding workq_slpydrv_init_module sleepy_read driver_or
sleepy_read-react_all result d hs e k = elim (Bool-cases (is_negative result)) [
  | inl refused ↦ cc (rw refused at e)
  | inr registered ↦
      let fresh : Driver = record {
        loaded = true;
        work_queued = false;
        work_running = false;
        timer_active = false;
        data_present = false;
      } in
      let same : fresh ≡ d = ap (driver_or fresh) (ap (λ r. r.1) (rw registered at e)) in
      let loaded : d.loaded ≡ true = ap (λ c. c.loaded) (sym same) in
      let empty : d.data_present ≡ false = ap (λ c. c.data_present) (sym same) in
      let (d', e', p) = react_all-data d hs loaded k in (d', e', ground (arith, p, empty))
]
