-- ===== src/Sblkdev/Catalog/Failed.antt =====
-- A load of blockdrv/sblkdev/main.c that fails at the last entry of its catalog, and the devices that
-- stay behind.
use l3_dd_trg.Base.{
  ℕ, ◌+◌, ◌≤◌, ◌≡◌, ◌≢◌, ◌∙◌, refl, ap, Bool-cases, true, some, List, [], ◌∷◌, ◌++◌, inl, inr,
  length, length-append, ◌==◌, arith,
}
use l3_dd_trg.Base.Int.{pos, eq-zero}
use l3_dd_trg.Base.Ledger.{replay, acquire}
use l3_dd_trg.Sblkdev.Lifecycle.{held_resource, major, catalog}
use l3_dd_trg.Sblkdev.Catalog.{
  split, cons_first, Progress, Answers, turn, add_devices, read_catalog, sblkdev_init,
}
use l3_dd_trg.Sblkdev.Catalog.Split.{Free, split-Free, split-nonempty}
use l3_dd_trg.Sblkdev.Catalog.Setup.{Turn-cases, owned_all, rest, sblkdev_init-ledger}

cons_first-append :
    (c : ℕ) (ps qs : List (List ℕ)) → ps ≢ [] → cons_first c (ps ++ qs) ≡ cons_first c ps ++ qs
cons_first-append c [] qs h = absurd (h refl)
cons_first-append c (p ∷ ps) qs h = refl

split-more :
    (sep : ℕ) (s more : List ℕ)
    → Free sep more
    → split sep (s ++ sep ∷ more) ≡ split sep s ++ more ∷ []
unfolding split
split-more sep [] more f = elim (Bool-cases (sep == sep)) [
  | inl same ↦ rw (same, split-Free sep more f) refl
  | inr other ↦ absurd (ground arith)
]
split-more sep (c ∷ s) more f = elim (Bool-cases (c == sep)) [
  | inl cut ↦ rw (cut, split-more sep s more f) refl
  | inr keep ↦
      rw (keep, split-more sep s more f)
        (cons_first-append c (split sep s) (more ∷ []) (split-nonempty sep s))
]

module _ (a : Answers) where
  -- Where one more token makes the loop fail, it adds no device and takes none away.
  add_devices-more :
      (tokens : List (List ℕ)) (token : List ℕ) (inx : ℕ) (p : Progress)
      → (add_devices a inx p (tokens ++ token ∷ [])).ret ≢ pos 0
      → (add_devices a inx p (tokens ++ token ∷ [])).devices ≡ (add_devices a inx p tokens).devices
  unfolding add_devices
  add_devices-more [] token inx p fails = elim (Turn-cases (turn a inx token)) [
    | inl e ↦ rw (e, add_devices) refl
    | inr (inl (ret, es, e)) ↦ rw (e, add_devices) refl
    | inr (inr (d, es, e)) ↦ absurd (fails (rw (e, add_devices) refl))
  ]
  add_devices-more (t ∷ tokens) token inx p fails = elim (Turn-cases (turn a inx t)) [
    | inl e ↦
        rw (e, add_devices) (add_devices-more tokens token inx p (rw (e, add_devices) at fails))
    | inr (inl (ret, es, e)) ↦ rw (e, add_devices) refl
    | inr (inr (d, es, e)) ↦
        rw (e, add_devices)
          (add_devices-more tokens token (inx + 1)
            (record { ret = pos 0; devices = d ∷ p.devices; events = p.events ++ es })
            (rw (e, add_devices) at fails))
  ]

  read_catalog-more :
      (text more : List ℕ)
      → Free b';' more
      → (read_catalog a (text ++ b';' ∷ more)).ret ≢ pos 0
      → (read_catalog a (text ++ b';' ∷ more)).devices ≡ (read_catalog a text).devices
  unfolding read_catalog
  read_catalog-more text more free fails =
      let start : Progress = record {
        ret = pos 0;
        devices = [];
        events = acquire major ∷ acquire catalog ∷ [];
      } in
      let cut = split-more b';' text more free in
      let kept = add_devices-more (split b';' text) more 0 start in ground (arith, cut, kept, fails)

  unloaded :
      (text : List ℕ) → (sblkdev_init a text).ret ≢ pos 0 → rest (sblkdev_init a text).ret ≡ []
  unloaded text fails = ground (arith, eq-zero (sblkdev_init a text).ret, fails)

  devices_kept :
      (text more : List ℕ)
      → Free b';' more
      → 1 ≤ length text
      → length (text ++ b';' ∷ more) ≤ a.page_size
      → (sblkdev_init a (text ++ b';' ∷ more)).ret ≢ pos 0
      → (sblkdev_init a (text ++ b';' ∷ more)).devices ≡ (sblkdev_init a text).devices
  unfolding sblkdev_init
  devices_kept text more free some_text page fails = ground (
    arith,
    length-append text (b';' ∷ more),
    read_catalog-more text more free,
    some_text,
    page,
    fails,
  )

module _ (a : Answers) (modern : a.config.kernel_alloc_disk ≡ true) where
  -- With the kernel's disk allocation: if the catalog is a text that is not empty, a semicolon and
  -- a further piece, no longer than a page, and the load does not return 0, then the devices on
  -- the list are those that a load of the text without that piece adds, and what they own is just
  -- what is still held: a load that fails at its last entry keeps the devices added before, and
  -- gives up the major number.
  pub failed_load_keeps :
      (text more : List ℕ)
      → Free b';' more
      → 1 ≤ length text
      → length (text ++ b';' ∷ more) ≤ a.page_size
      → (sblkdev_init a (text ++ b';' ∷ more)).ret ≢ pos 0
      → let q = sblkdev_init a (text ++ b';' ∷ more) in
        (q.devices ≡ (sblkdev_init a text).devices)
        × (replay q.events [] ≡ some (owned_all a.config (sblkdev_init a text).devices []))
  failed_load_keeps text more free some_text page fails =
      let kept = devices_kept a text more free some_text page fails in
      (
        kept,
        sblkdev_init-ledger a modern (text ++ b';' ∷ more)
            ∙ ap
                (λ held.
                  some (owned_all a.config (sblkdev_init a (text ++ b';' ∷ more)).devices held))
                (unloaded a (text ++ b';' ∷ more) fails)
            ∙ ap (λ ds. some (owned_all a.config ds [])) kept,
      )
