-- ===== src/Sblkdev/Catalog/Setup.antt =====
-- The module's setup and teardown (blockdrv/sblkdev/main.c) on the ledger of resources.
use l3_dd_trg.Base.{
  ℕ, ◌+◌, ◌≡◌, refl, true, false, some, List, [], ◌∷◌, ◌++◌, inl, inr, ◌⊎◌, arith, if◌then◌else◌,
}
use l3_dd_trg.Base.Int.{ℤ, pos, is_nonpositive, is_zero, eq-zero, ne-zero}
use l3_dd_trg.Base.Ledger.{Event, acquire, release, replay, replay-append, remove}
use l3_dd_trg.Sblkdev.Lifecycle.{
  held_resource, Held, major, catalog, Config, owned, sblkdev_add, sblkdev_remove,
  sblkdev_add-ledger, sblkdev_remove-ledger,
}
use l3_dd_trg.Sblkdev.Catalog.{
  split, Added, Progress, Answers, Turn, next, break_with, added, turn, add_devices, read_catalog,
  sblkdev_init, sblkdev_exit,
}

-- What the devices of the list hold, over what else is held.
abbrev pub owned_all : Config → List Added → List Held → List Held
owned_all c [] held = held
owned_all c (d ∷ ds) held = owned c d.minor ++ owned_all c ds held

remove_catalog-owned :
    (c : Config) (i : ℕ) (held rest : List Held)
    → remove catalog held ≡ some rest
    → remove catalog (owned c i ++ held) ≡ some (owned c i ++ rest)
remove_catalog-owned c i held rest h = ground arith

remove_major-owned :
    (c : Config) (i : ℕ) (held rest : List Held)
    → remove major held ≡ some rest
    → remove major (owned c i ++ held) ≡ some (owned c i ++ rest)
remove_major-owned c i held rest h = ground arith

pub Turn-cases :
    (t : Turn)
    → (t ≡ next)
      ⊎ (((ret : ℤ) × (es : List (Event Held)) × (t ≡ break_with ret es))
          ⊎ ((d : Added) × (es : List (Event Held)) × (t ≡ added d es)))
Turn-cases next = inl refl
Turn-cases (break_with ret es) = inr (inl (ret, es, refl))
Turn-cases (added d es) = inr (inr (d, es, refl))

module _ (a : Answers) (modern : a.config.kernel_alloc_disk ≡ true) where
  turn-added :
      (inx : ℕ) (token : List ℕ) (d : Added) (es : List (Event Held)) (held : List Held)
      → turn a inx token ≡ added d es
      → (d.minor ≡ inx) × (replay es held ≡ some (owned a.config d.minor ++ held))
  unfolding turn
  turn-added inx token d es held e = ground (
    arith,
    eq-zero (sblkdev_add a.config (a.adding inx) inx).ret,
    sblkdev_add-ledger a.config (a.adding inx) inx held modern,
  )

  turn-break_with :
      (inx : ℕ) (token : List ℕ) (ret : ℤ) (es : List (Event Held)) (held : List Held)
      → turn a inx token ≡ break_with ret es
      → (is_zero ret ≡ false) × (replay es held ≡ some held)
  unfolding turn
  turn-break_with inx token ret es held e = ground (
    arith,
    ne-zero (sblkdev_add a.config (a.adding inx) inx).ret,
    sblkdev_add-ledger a.config (a.adding inx) inx held modern,
  )

  -- After any number of turns the ledger holds what the listed devices own.
  add_devices-ledger :
      (base : List Held) (inx : ℕ) (p : Progress) (tokens : List (List ℕ))
      → replay p.events [] ≡ some (owned_all a.config p.devices base)
      → let q = add_devices a inx p tokens in
        replay q.events [] ≡ some (owned_all a.config q.devices base)
  unfolding add_devices
  add_devices-ledger base inx p [] h = h
  add_devices-ledger base inx p (token ∷ tokens) h = elim (Turn-cases (turn a inx token)) [
    | inl e ↦ rw (e, add_devices) (add_devices-ledger base inx p tokens h)
    | inr (inl (ret, es, e)) ↦
        rw (e, add_devices)
          (rw (replay-append p.events es [], h) (turn-break_with inx token ret es _ e).1)
    | inr (inr (d, es, e)) ↦
        rw (e, add_devices)
          (add_devices-ledger base (inx + 1)
            (record { ret = pos 0; devices = d ∷ p.devices; events = p.events ++ es }) tokens
            (rw (replay-append p.events es [], h) (turn-added inx token d es _ e).1))
  ]

remove_catalog :
    (c : Config) (ds : List Added)
    → remove catalog (owned_all c ds (catalog ∷ major ∷ [])) ≡ some (owned_all c ds (major ∷ []))
remove_catalog c [] = refl
remove_catalog c (d ∷ ds) = remove_catalog-owned c d.minor _ _ (remove_catalog c ds)

remove_major :
    (c : Config) (ds : List Added)
    → remove major (owned_all c ds (major ∷ [])) ≡ some (owned_all c ds [])
remove_major c [] = refl
remove_major c (d ∷ ds) = remove_major-owned c d.minor _ _ (remove_major c ds)

release_catalog :
    (c : Config) (ds : List Added) (es : List (Event Held))
    → replay es [] ≡ some (owned_all c ds (catalog ∷ major ∷ []))
    → replay (es ++ release catalog ∷ []) [] ≡ some (owned_all c ds (major ∷ []))
release_catalog c ds es h =
    rw (replay-append es (release catalog ∷ []) [], h) (rw (remove_catalog c ds, replay))

release_major :
    (c : Config) (ds : List Added) (es : List (Event Held))
    → replay es [] ≡ some (owned_all c ds (major ∷ []))
    → replay (es ++ release major ∷ []) [] ≡ some (owned_all c ds [])
release_major c ds es h =
    rw (replay-append es (release major ∷ []) [], h) (rw (remove_major c ds, replay))

-- The major number stays taken exactly if the module is loaded.
abbrev pub rest : ℤ → List Held
rest ret = if is_zero ret then major ∷ [] else []

module _ (a : Answers) (modern : a.config.kernel_alloc_disk ≡ true) where
  read_catalog-ledger :
      (text : List ℕ)
      → let q = read_catalog a text in
        replay q.events [] ≡ some (owned_all a.config q.devices (rest q.ret))
  unfolding read_catalog
  read_catalog-ledger text = ground (
    arith,
    add_devices-ledger a modern (catalog ∷ major ∷ []) 0 start (split b';' text) refl,
    release_catalog a.config p.devices p.events,
    release_major a.config p.devices (p.events ++ release catalog ∷ []),
  )
    where
      start : Progress
      start = record { ret = pos 0; devices = []; events = acquire major ∷ acquire catalog ∷ [] }

      p : Progress
      p = add_devices a 0 start (split b';' text)

  -- With the kernel's disk allocation, however sblkdev_init ends, nothing is released that is not
  -- held, and what is held afterwards is what the listed devices own, and the major number exactly
  -- if it returns 0.
  pub sblkdev_init-ledger :
      (text : List ℕ)
      → let q = sblkdev_init a text in
        replay q.events [] ≡ some (owned_all a.config q.devices (rest q.ret))
  unfolding sblkdev_init
  sblkdev_init-ledger text = ground (arith, read_catalog-ledger text)

  exit-ledger :
      (ds : List Added)
      → is_nonpositive a.register_blkdev ≡ false
      → replay (sblkdev_exit a ds) (owned_all a.config ds (major ∷ [])) ≡ some []
  unfolding sblkdev_exit
  exit-ledger [] h = rw h refl
  exit-ledger (d ∷ ds) h =
      rw
        (
          replay-append (sblkdev_remove a.config d.minor) (sblkdev_exit a ds)
              (owned a.config d.minor ++ owned_all a.config ds (major ∷ [])),
          sblkdev_remove-ledger a.config d.minor (owned_all a.config ds (major ∷ [])),
        )
        (exit-ledger ds h)

  registered :
      (text : List ℕ) → (sblkdev_init a text).ret ≡ pos 0 → is_nonpositive a.register_blkdev ≡ false
  unfolding sblkdev_init
  registered text ok = ground arith

  -- After a load that returns 0, `sblkdev_exit` releases everything that the module holds.
  pub sblkdev_exit-sblkdev_init :
      (text : List ℕ)
      → let q = sblkdev_init a text in
        q.ret ≡ pos 0 → replay (q.events ++ sblkdev_exit a q.devices) [] ≡ some []
  sblkdev_exit-sblkdev_init text ok =
      rw
        (
          replay-append (sblkdev_init a text).events (sblkdev_exit a (sblkdev_init a text).devices)
              [],
          sblkdev_init-ledger text,
          ok,
        )
        (exit-ledger (sblkdev_init a text).devices (registered text ok))
