-- ===== src/Sblkdev/Parallel/Resume.antt =====
-- A turn is a turn of the loop `rq_for_each_segment` as `process_request` runs it alone.
use l3_dd_trg.Base.{
  ℕ, ◌+◌, ◌%◌, ◌^◌, ◌≡◌, ◌∙◌, refl, ap, Bool, Option, none, some, List, [], ◌∷◌, ◌++◌, append_assoc,
  length, sym, ◌>>=◌,
}
use l3_dd_trg.Sblkdev.{Request, to_bytes, for_each_segment, copy_segment, clamp_len}
use l3_dd_trg.Sblkdev.Parallel.{Going, begin, turn_at, segment_turn}

-- What the loop gives: the device's bytes, the segments, the count.
abbrev Looped : Type 0
Looped = List ℕ × List (List ℕ) × ℕ

-- With the segments behind the loop put before those that it still visits.
abbrev prepend : List (List ℕ) → Option Looped → Option Looped
prepend behind o = o >>= λ (store', bufs, total). some (store', behind ++ bufs, total)

-- What the loop does from here on.
unfoldable resume : ℕ → List ℕ → Going → Option Looped
resume dev_size store g =
    prepend g.behind (for_each_segment g.is_write dev_size g.at g.nr_bytes store g.ahead)

unchanged {ℓ} : {A B C : Type ℓ} (o : Option (A × B × C)) → (o >>= λ (a, b, c). some (a, b, c)) ≡ o
unchanged none = refl
unchanged (some (a, b, c)) = refl

-- From its first segment on it is the loop of the call.
resume-begin :
    (dev_size : ℕ) (store : List ℕ) (rq : Request)
    → resume dev_size store (begin rq)
      ≡ for_each_segment rq.is_write dev_size (to_bytes rq.sector) 0 store rq.segments
unfolding resume begin
resume-begin dev_size store rq =
    unchanged (for_each_segment rq.is_write dev_size (to_bytes rq.sector) 0 store rq.segments)

prepend-prepend :
    (behind : List (List ℕ)) (buf : List ℕ) (o : Option Looped)
    → prepend behind (prepend (buf ∷ []) o) ≡ prepend (behind ++ buf ∷ []) o
prepend-prepend behind buf none = refl
prepend-prepend behind buf (some (store', bufs, total)) =
    ap (λ l. some (store', l, total)) (sym (append_assoc behind (buf ∷ []) bufs))

after_copy :
    (behind : List (List ℕ)) (o : Option (List ℕ × List ℕ)) (rest : List ℕ → Option Looped)
    (next : List ℕ → Going) (k : List ℕ × Going → Option Looped)
    → ((store : List ℕ) (buf : List ℕ)
        → k (store, next buf) ≡ prepend (behind ++ buf ∷ []) (rest store))
    → prepend behind (o >>= λ (store, buf). prepend (buf ∷ []) (rest store))
      ≡ ((o >>= λ (store, buf). some (store, next buf)) >>= k)
after_copy behind none rest next k h = refl
after_copy behind (some (store, buf)) rest next k h =
    prepend-prepend behind buf (rest store) ∙ sym (h store buf)

resume-turn_at :
    (dev_size : ℕ) (store : List ℕ) (is_write : Bool) (at nr : ℕ) (behind ahead : List (List ℕ))
    → let g : Going = record {
      is_write = is_write;
      at = at;
      nr_bytes = nr;
      ahead = ahead;
      behind = behind;
    } in
      resume dev_size store g
      ≡ (turn_at dev_size store g ahead >>= λ (store', g'). resume dev_size store' g')
unfolding resume turn_at for_each_segment
resume-turn_at dev_size store is_write at nr behind [] = refl
resume-turn_at dev_size store is_write at nr behind (buf ∷ rest) =
    let len = clamp_len dev_size at (length buf) in
    after_copy behind (copy_segment is_write store at buf len)
      (λ store'.
        for_each_segment is_write dev_size ((at + len) % 2 ^ 64) ((nr + len) % 2 ^ 32) store' rest)
      (λ buf'. record {
        is_write = is_write;
        at = (at + len) % 2 ^ 64;
        nr_bytes = (nr + len) % 2 ^ 32;
        ahead = rest;
        behind = behind ++ buf' ∷ [];
      })
      (λ (store', g'). resume dev_size store' g') (λ store' buf'. refl)

-- The loop is a turn and then the loop.
resume-segment_turn :
    (dev_size : ℕ) (store : List ℕ) (g : Going)
    → resume dev_size store g
      ≡ (segment_turn dev_size store g >>= λ (store', g'). resume dev_size store' g')
unfolding segment_turn
resume-segment_turn dev_size store g =
    resume-turn_at dev_size store g.is_write g.at g.nr_bytes g.behind g.ahead
