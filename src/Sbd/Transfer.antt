-- ===== src/Sbd/Transfer.antt =====
-- The data path of blockdrv/older_sblkdrv/sbd.c against a flat array, and its geometry.
use l3_dd_trg.Base.{
  ℕ, ◌+◌, ◌*◌, ◌%◌, ◌^◌, ◌≤◌, ◌<◌, ◌≡◌, ◌∙◌, refl, ap, Bool-cases, inl, inr, true, false, none,
  some, List, [], ◌∷◌, ltb, length, arith, drop, take, take_all, length-take, length-drop,
  if◌then◌else◌, le→not-ltb,
}
use l3_dd_trg.Base.Bytes.{
  memcpy, memcpy-in-bounds, overwrite, length-overwrite, drop-overwrite, take-overwrite,
}
use l3_dd_trg.Sbd.{SbdDevice, Chunk, sbd_transfer, sbd_request, sbd_getgeometry}

pub record IsValid (dev : SbdDevice) : Type 0 where
  pub allocated : length dev.store ≡ dev.size
  pub small : dev.size < 2 ^ 63

-- A segment of whole sectors of 512 bytes, at a sector number that does not wrap.
pub record IsChunk (c : Chunk) : Type 0 where
  pub whole : length c.buffer ≡ c.nsect * 512
  pub near : c.sector * 512 + c.nsect * 512 < 2 ^ 64

-- The device after a segment, and the segment's buffer: a segment that passes the end is skipped.
abbrev pub moved : SbdDevice → Chunk → SbdDevice × List ℕ
moved dev c =
    if ltb dev.size (c.sector * 512 + c.nsect * 512)
    then (dev, c.buffer)
    else if c.is_write
    then (record dev { store = overwrite dev.store (c.sector * 512) c.buffer }, c.buffer)
    else (dev, take (c.nsect * 512) (drop (c.sector * 512) dev.store))

-- A whole buffer is replaced.
overwrite_whole : (b d : List ℕ) → length d ≡ length b → overwrite b 0 d ≡ d
overwrite_whole [] [] h = refl
overwrite_whole [] (y ∷ d) h = absurd (omega arith)
overwrite_whole (x ∷ b) [] h = absurd (omega arith)
overwrite_whole (x ∷ b) (y ∷ d) h = ap (λ r. y ∷ r) (overwrite_whole b d (omega arith))

sbd_transfer_lem :
    (dev : SbdDevice) (c : Chunk)
    → IsValid dev
    → IsChunk c
    → sbd_transfer 512 dev c ≡ some (moved dev c)
unfolding sbd_transfer
sbd_transfer_lem dev c v k =
    let at : c.sector * 512 % 2 ^ 64 ≡ c.sector * 512 = omega arith in
    let bytes : c.nsect * 512 % 2 ^ 64 ≡ c.nsect * 512 = omega arith in
    let end : (c.sector * 512 + c.nsect * 512) % 2 ^ 64 ≡ c.sector * 512 + c.nsect * 512 =
      omega arith in
    rw (at, bytes, end)
      (elim (Bool-cases (ltb dev.size (c.sector * 512 + c.nsect * 512))) [
        | inl past ↦ rw past
        | inr fits ↦ rw fits (elim (Bool-cases c.is_write) [
          | inl w ↦ rw w (
              rw (
                memcpy-in-bounds dev.store (c.sector * 512) c.buffer 0 (c.nsect * 512)
                    (ground (arith, v.allocated)) (ground (arith, k.whole)),
                take_all (c.nsect * 512) c.buffer (ground (arith, k.whole)),
              ))
          | inr r ↦ rw r (
              rw (
                memcpy-in-bounds c.buffer 0 dev.store (c.sector * 512) (c.nsect * 512)
                    (ground (arith, k.whole)) (ground (arith, v.allocated)),
                overwrite_whole c.buffer (take (c.nsect * 512) (drop (c.sector * 512) dev.store)) (
                    ground (
                      arith,
                      v.allocated,
                      k.whole,
                      length-take (c.nsect * 512) (drop (c.sector * 512) dev.store),
                      length-drop (c.sector * 512) dev.store,
                    )),
              ))
        ])
      ])

-- All segments in turn.
abbrev pub moved_all : SbdDevice → List Chunk → SbdDevice × List (List ℕ)
moved_all dev [] = (dev, [])
moved_all dev (c ∷ cs) =
    let (dev', buf) = moved dev c in
    let (end_dev, bufs) = moved_all dev' cs in (end_dev, buf ∷ bufs)

abbrev pub AllChunks : List Chunk → Type 0
AllChunks [] = Unit
AllChunks (c ∷ cs) = IsChunk c × AllChunks cs

moved-IsValid : (dev : SbdDevice) (c : Chunk) → IsValid dev → IsValid (moved dev c).0
moved-IsValid dev c v = ground (arith, length-overwrite dev.store (c.sector * 512) c.buffer)

-- With blocks of 512 bytes `sbd_request` drains its queue: each segment of whole sectors that lies on
-- the device is copied to or from the device's bytes at its sector, one that passes the end changes
-- nothing, and no copy leaves the device or a buffer.
pub sbd_request_lem :
    (dev : SbdDevice) (cs : List Chunk)
    → IsValid dev
    → AllChunks cs
    → (sbd_request 512 dev cs ≡ some (moved_all dev cs)) × IsValid (moved_all dev cs).0
unfolding sbd_request
sbd_request_lem dev [] v k = (refl, v)
sbd_request_lem dev (c ∷ cs) v k =
    let ih = sbd_request_lem (moved dev c).0 cs (moved-IsValid dev c v) k.1 in
    (rw (sbd_transfer_lem dev c v k.0, ih.0), ih.1)

-- A segment that was written reads back.
sbd_request-write-read :
    (dev : SbdDevice) (w r : Chunk)
    → IsValid dev
    → IsChunk w
    → IsChunk r
    → w.is_write ≡ true
    → r.is_write ≡ false
    → r.sector ≡ w.sector
    → r.nsect ≡ w.nsect
    → w.sector * 512 + w.nsect * 512 ≤ dev.size
    → sbd_request 512 dev (w ∷ r ∷ [])
      ≡ some (
        record dev { store = overwrite dev.store (w.sector * 512) w.buffer },
        w.buffer ∷ w.buffer ∷ [],
      )
sbd_request-write-read dev w r v kw kr hw hr es en fits =
    (sbd_request_lem dev (w ∷ r ∷ []) v (kw, (kr, tt))).0
    ∙ (rw
        (
          hw,
          hr,
          es,
          en,
          le→not-ltb dev.size (w.sector * 512 + w.nsect * 512) fits,
          le→not-ltb dev.size (w.sector * 512 + w.nsect * 512) fits,
        )
        (ap
          (λ b. some (
            record dev { store = overwrite dev.store (w.sector * 512) w.buffer },
            w.buffer ∷ b ∷ [],
          ))
          back))
  where
    back :
        take (w.nsect * 512) (drop (w.sector * 512) (overwrite dev.store (w.sector * 512) w.buffer))
        ≡ w.buffer
    back =
        rw (drop-overwrite, ← kw.whole)
          (take-overwrite (drop (w.sector * 512) dev.store) w.buffer
            (omega (arith, length-drop (w.sector * 512) dev.store, v.allocated, kw.whole)))

-- The kernel counts in sectors of 512 bytes. With larger blocks the length of a copy is more than
-- the segment holds, and a segment that seems to lie on the device is copied out of its buffer's bounds.
sbd_transfer_overruns :
    (lbs : ℕ) (dev : SbdDevice) (c : Chunk)
    → 512 < lbs
    → 0 < c.nsect
    → length c.buffer ≡ c.nsect * 512
    → c.sector * lbs + c.nsect * lbs ≤ dev.size
    → dev.size < 2 ^ 63
    → sbd_transfer lbs dev c ≡ none
unfolding sbd_transfer memcpy
sbd_transfer_overruns lbs dev c big some_sectors whole fits small =
    let longer : c.nsect * 512 < c.nsect * lbs = grind arith in ground arith

-- `sbd_getgeometry` counts the device's bytes as sectors: the geometry of a device of `n` sectors
-- of 512 bytes has 512 times as many.
sbd_getgeometry-counts-bytes :
    (dev : SbdDevice) (n : ℕ)
    → dev.size ≡ n * 512
    → n * 8 < 2 ^ 16
    → let (cylinders, heads, sectors) = sbd_getgeometry 512 dev in
      cylinders * heads * sectors ≡ 512 * n
unfolding sbd_getgeometry
sbd_getgeometry-counts-bytes dev n e h = omega arith
