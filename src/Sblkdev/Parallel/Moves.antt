-- ===== src/Sblkdev/Parallel/Moves.antt =====
-- One turn of one call, whatever the others have done to the bytes of the device (`process_request` of
-- blockdrv/sblkdev/device.c).
use l3_dd_trg.Base.{
  ℕ, ◌+◌, ◌-◌, ◌*◌, ◌%◌, ◌^◌, ◌≤◌, ◌<◌, ◌≡◌, ◌∙◌, refl, ap, sym, min, true, false, some, List, [],
  ◌∷◌, ◌++◌, append-nil, append_assoc, length, length-append, drop, length-drop, length-take,
  Bool-cases, inl, inr, if◌then◌else◌, arith,
}
use l3_dd_trg.Base.Bytes.{overwrite, overwrite-nil, gather, overwrite-take_of_le}
use l3_dd_trg.Sblkdev.{Request, clamp_len, copy_segment}
use l3_dd_trg.Sblkdev.Transfer.{clamp_len-eq-min, copy_segment-write, copy_segment-read}
use l3_dd_trg.Sblkdev.Parallel.{Going, turn_at}
use l3_dd_trg.Sblkdev.Parallel.Apart.{slice, slice-slice, slice-append}

abbrev pub start : Request → ℕ
start r = r.sector * 512

abbrev pub total : Request → ℕ
total r = length (gather r.segments)

-- The request lies on the device, which has `size` bytes, and its length fits an `unsigned int`.
pub record Fits (size : ℕ) (r : Request) : Type 0 where
  pub within : start r + total r ≤ size
  pub short : total r < 2 ^ 32

-- The call of the request, on a device that held `disk` when it began.
pub record IsAt (disk : List ℕ) (r : Request) (g : Going) : Type 0 where
  pub way : g.is_write ≡ r.is_write
  pub place : g.at ≡ start r + length (gather g.behind)
  pub counted : g.nr_bytes ≡ length (gather g.behind)
  pub sum : length (gather g.behind) + length (gather g.ahead) ≡ total r
  pub written : r.is_write ≡ true → gather g.behind ++ gather g.ahead ≡ gather r.segments
  pub filled :
      r.is_write ≡ false → gather g.behind ≡ slice (start r) (length (gather g.behind)) disk

gather-append : (a b : List (List ℕ)) → gather (a ++ b) ≡ gather a ++ gather b
gather-append [] b = refl
gather-append (s ∷ a) b =
    ap (λ t. s ++ t) (gather-append a b) ∙ sym (append_assoc s (gather a) (gather b))

gather_one_more : (a : List (List ℕ)) (b : List ℕ) → gather (a ++ b ∷ []) ≡ gather a ++ b
gather_one_more a b = gather-append a (b ∷ []) ∙ ap (λ t. gather a ++ t) (append-nil b)

length_one_more :
    (a : List (List ℕ)) (b : List ℕ) → length (gather (a ++ b ∷ [])) ≡ length (gather a) + length b
length_one_more a b = ap length (gather_one_more a b) ∙ length-append (gather a) b

-- What a turn does: `new` are the bytes that it moves.
pub record Moved (disk store store' : List ℕ) (r : Request) (g g' : Going) : Type 0 where
  pub new : List ℕ
  pub stored :
      store'
      ≡ (if r.is_write then overwrite store (start r + length (gather g.behind)) new else store)
  pub grown : gather g'.behind ≡ gather g.behind ++ new
  pub bound : length (gather g.behind) + length new ≤ total r
  pub less : length g'.ahead ≡ length g.ahead - 1
  pub kept : IsAt disk r g'

module _ (size : ℕ) (disk store : List ℕ) (r : Request) (small : size < 2 ^ 63)
    (long : length store ≡ size) (f : Fits size r)
    (agree : r.is_write ≡ false
      → slice (start r) (total r) store ≡ slice (start r) (total r) disk) where
  -- The call after a turn that leaves `buf'` behind.
  abbrev next : Going → List ℕ → List (List ℕ) → Going
  next g buf' rest = record g {
    at = g.at + length buf';
    nr_bytes = g.nr_bytes + length buf';
    ahead = rest;
    behind = g.behind ++ buf' ∷ [];
  }

  moved :
      (g : Going) (buf buf' : List ℕ) (rest : List (List ℕ))
      → g.ahead ≡ buf ∷ rest
      → IsAt disk r g
      → length buf' ≡ length buf
      → (r.is_write ≡ true → buf' ≡ buf)
      → (r.is_write ≡ false → buf' ≡ slice g.at (length buf) disk)
      → Moved disk store
          (if r.is_write then overwrite store (start r + length (gather g.behind)) buf' else store)
          r
          g
          (next g buf' rest)
  moved g buf buf' rest e h same write read =
      let ahead : length (gather g.ahead) ≡ length buf + length (gather rest) =
        ap (λ l. length (gather l)) e ∙ length-append buf (gather rest) in
      let behind = length_one_more g.behind buf' in
      record {
        new = buf';
        stored = refl;
        grown = gather_one_more g.behind buf';
        bound = omega (arith, h.sum, ahead);
        less = omega (arith, ap length e);
        kept = record {
          way = h.way;
          place = omega (arith, h.place, behind);
          counted = omega (arith, h.counted, behind);
          sum = omega (arith, h.sum, ahead, behind);
          written = λ w.
              ap (λ b. b ++ gather rest) (gather_one_more g.behind buf')
              ∙ append_assoc (gather g.behind) buf' (gather rest)
              ∙ ap (λ b. gather g.behind ++ (b ++ gather rest)) (write w)
              ∙ ap (λ l. gather g.behind ++ gather l) (sym e)
              ∙ h.written w;
          filled = λ w.
              gather_one_more g.behind buf'
              ∙ ap (λ b. b ++ buf') (h.filled w)
              ∙ ap (λ b. slice (start r) (length (gather g.behind)) disk ++ b) (read w)
              ∙ ap
                  (λ p.
                    slice (start r) (length (gather g.behind)) disk ++ slice p (length buf) disk)
                  h.place
              ∙ slice-append disk (start r) (length (gather g.behind)) (length buf)
              ∙ ap (λ k. slice (start r) k disk) (omega (arith, behind, same));
        };
      }

  -- A turn of which the copy goes well, in numbers that do not wrap.
  turned :
      (g : Going) (buf buf' store' : List ℕ) (rest : List (List ℕ))
      → g.ahead ≡ buf ∷ rest
      → IsAt disk r g
      → length buf' ≡ length buf
      → copy_segment g.is_write store g.at buf (length buf) ≡ some (store', buf')
      → turn_at size store g (buf ∷ rest) ≡ some (store', next g buf' rest)
  unfolding turn_at
  turned g buf buf' store' rest e h same copied =
      let ahead : length (gather g.ahead) ≡ length buf + length (gather rest) =
        ap (λ l. length (gather l)) e ∙ length-append buf (gather rest) in
      let min : min (length buf) (size - g.at) ≡ length buf =
        omega (arith, h.place, h.sum, ahead, f.within) in
      let len : clamp_len size g.at (length buf) ≡ length buf =
        clamp_len-eq-min size g.at (length buf) (omega (arith, h.place, h.sum, f.within)) small
          (omega (arith, h.sum, ahead, f.short))
        ∙ min in
      let at : (g.at + length buf) % 2 ^ 64 ≡ g.at + length buf =
        omega (arith, h.place, h.sum, ahead, f.within) in
      let nr : (g.nr_bytes + length buf) % 2 ^ 32 ≡ g.nr_bytes + length buf =
        omega (arith, h.counted, h.sum, ahead, f.short) in
      rw (len, copied, at, nr, same) refl

  -- The bytes of the device after a turn that moves `buf'`.
  abbrev after : Going → List ℕ → List ℕ
  after g buf' =
      if r.is_write then overwrite store (start r + length (gather g.behind)) buf' else store

  copied_out :
      (g : Going) (buf : List ℕ) (rest : List (List ℕ))
      → g.ahead ≡ buf ∷ rest
      → IsAt disk r g
      → r.is_write ≡ true
      → copy_segment g.is_write store g.at buf (length buf) ≡ some (after g buf, buf)
  copied_out g buf rest e h w =
      let ahead : length (gather g.ahead) ≡ length buf + length (gather rest) =
        ap (λ l. length (gather l)) e ∙ length-append buf (gather rest) in
      rw (h.way, w)
        (copy_segment-write store g.at buf (length buf)
            (omega (arith, long, h.place, h.sum, f.within))
            (omega (arith, long, h.place, h.sum, ahead, f.within))
          ∙ ap (λ p. some (overwrite store p buf, buf)) h.place)

  copied_in :
      (g : Going) (buf : List ℕ) (rest : List (List ℕ))
      → g.ahead ≡ buf ∷ rest
      → IsAt disk r g
      → r.is_write ≡ false
      → let buf' = slice g.at (length buf) disk in
        (length buf' ≡ length buf)
        × (copy_segment g.is_write store g.at buf (length buf) ≡ some (after g buf', buf'))
  copied_in g buf rest e h w =
      let ahead : length (gather g.ahead) ≡ length buf + length (gather rest) =
        ap (λ l. length (gather l)) e ∙ length-append buf (gather rest) in
      let same : slice g.at (length buf) store ≡ slice g.at (length buf) disk =
        slice-slice store disk (start r) (total r) g.at (length buf) (agree w)
          (omega (arith, h.place)) (omega (arith, h.place, h.sum, ahead)) in
      let enough : length buf ≤ length (drop g.at store) =
        omega (arith, long, length-drop g.at store, h.place, h.sum, ahead, f.within) in
      (
        ap length (sym same) ∙ length-take (length buf) (drop g.at store) ∙ omega (arith, enough),
        rw (h.way, w)
            (copy_segment-read store g.at buf (length buf)
                (omega (arith, long, h.place, h.sum, f.within))
                (omega (arith, long, h.place, h.sum, ahead, f.within))
              ∙ ap (λ b. some (store, b))
                  (overwrite-take_of_le buf (drop g.at store) enough ∙ same)),
      )

  -- Whatever the device holds, as long as a read finds in its range what was there when it began: a
  -- turn does not fail, and moves the next segment.
  pub turn_at_lem :
      (g : Going) (ahead : List (List ℕ))
      → g.ahead ≡ ahead
      → IsAt disk r g
      → (store' : List ℕ) × (g' : Going) × (turn_at size store g ahead ≡ some (store', g'))
        × Moved disk store store' r g g'
  unfolding turn_at
  turn_at_lem g [] e h = (
    store,
    g,
    refl,
    record {
      new = [];
      stored = elim (Bool-cases r.is_write) [
        | inl w ↦ rw w (sym (overwrite-nil store (start r + length (gather g.behind))))
        | inr w ↦ rw w refl
      ];
      grown = sym (append-nil (gather g.behind));
      bound = omega (arith, h.sum);
      less = omega (arith, ap length e);
      kept = h;
    },
  )
  turn_at_lem g (buf ∷ rest) e h = elim (Bool-cases r.is_write) [
    | inl w ↦ (
      after g buf,
      next g buf rest,
      turned g buf buf (after g buf) rest e h refl (copied_out g buf rest e h w),
      moved g buf buf rest e h refl (λ _. refl) (λ x. cc),
    )
    | inr w ↦
        let buf' = slice g.at (length buf) disk in
        let (same, copied) = copied_in g buf rest e h w in
        (
          after g buf',
          next g buf' rest,
          turned g buf buf' (after g buf') rest e h same copied,
          moved g buf buf' rest e h same (λ x. cc) (λ _. refl),
        )
  ]
