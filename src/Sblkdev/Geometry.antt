-- ===== src/Sblkdev/Geometry.antt =====
-- `ioctl_hdio_getgeo` and `sblkdev_ioctl` of blockdrv/sblkdev/device.c.
use l3_dd_trg.Base.{
  ℕ, ◌+◌, ◌*◌, ◌/◌, ◌%◌, ◌^◌, ◌≤◌, ◌<◌, ◌≡◌, Bool, false, ltb, ◌==◌, Option, none, some, ◌⊎◌, ◌↔◌,
  ◌≢◌, arith, if◌then◌else◌,
}
use l3_dd_trg.Base.Int.{ℤ, pos, einval, enotty}

-- `struct hd_geometry`; heads and sectors are of 8 bits, cylinders of 16.
pub record HdGeometry : Type 0 where
  pub heads : ℕ
  pub sectors : ℕ
  pub cylinders : ℕ
  pub start : ℕ

-- the geometry that the driver makes up for a capacity in sectors
unfoldable pub geometry : ℕ → HdGeometry
geometry capacity =
    if ltb 63 capacity
    then (let quotient = (capacity + 62) % 2 ^ 64 / 63 in
        if ltb 255 quotient
        then record {
          heads = 255;
          sectors = 63;
          cylinders = (quotient + 254) / 255 % 2 ^ 16;
          start = 0;
        }
        else record { heads = quotient % 2 ^ 8; sectors = 63; cylinders = 1; start = 0 })
    else record { heads = 1; sectors = capacity % 2 ^ 8; cylinders = 1; start = 0 }

abbrev pub size : HdGeometry → ℕ
size g = g.cylinders * g.heads * g.sectors

-- the largest capacity whose cylinders fit 16 bits
abbrev pub limit : ℕ
limit = 65535 * 255 * 63

-- Up to 65535 cylinders the geometry covers every sector of the device, and exceeds it by less
-- than one cylinder and one track.
geometry-covers :
    (capacity : ℕ)
    → capacity ≤ limit
    → (capacity ≤ size (geometry capacity)) × (size (geometry capacity) < capacity + 255 * 63 + 63)
unfolding geometry
geometry-covers capacity h = ground arith

-- Past 65535 cylinders the count of cylinders is cut to 16 bits, and the geometry is smaller than
-- the device.
geometry_truncated :
    (capacity : ℕ) → limit < capacity → capacity < 2 ^ 63 → size (geometry capacity) < capacity
unfolding geometry
geometry_truncated capacity h k = ground arith

-- The commands that the driver knows; their numbers are the kernel's.
pub record Commands : Type 0 where
  pub hdio_getgeo : ℕ
  pub cdrom_get_capability : ℕ

-- `ioctl_hdio_getgeo`: the result, and the geometry that reaches the user. `copy_fails` is what
-- `copy_to_user` answers.
unfoldable pub ioctl_hdio_getgeo : Bool → ℕ → ℤ × Option HdGeometry
ioctl_hdio_getgeo copy_fails capacity =
    if copy_fails then (einval, none) else (pos 0, some (geometry capacity))

unfoldable pub sblkdev_ioctl : Commands → Bool → ℕ → ℕ → ℤ × Option HdGeometry
sblkdev_ioctl c copy_fails capacity cmd =
    if cmd == c.hdio_getgeo
    then ioctl_hdio_getgeo copy_fails capacity
    else if cmd == c.cdrom_get_capability
    then (einval, none)
    else (enotty, none)

-- A geometry that reaches the user comes with the result 0, from `HDIO_GETGEO` and a copy that
-- succeeded, and covers every sector of a device of up to `limit` sectors; every other call returns
-- an error, -ENOTTY exactly for the commands that the driver does not know.
pub sblkdev_ioctl-result :
    (c : Commands) (copy_fails : Bool) (capacity cmd : ℕ)
    → capacity ≤ limit
    → let (ret, out) = sblkdev_ioctl c copy_fails capacity cmd in
      ((g : HdGeometry)
        → out ≡ some g
        → (ret ≡ pos 0) × (cmd ≡ c.hdio_getgeo) × (copy_fails ≡ false) × (capacity ≤ size g))
      × (out ≡ none → (ret ≡ einval) ⊎ (ret ≡ enotty))
      × ((ret ≡ enotty) ↔ ((cmd ≢ c.hdio_getgeo) × (cmd ≢ c.cdrom_get_capability)))
unfolding sblkdev_ioctl ioctl_hdio_getgeo
sblkdev_ioctl-result c copy_fails capacity cmd h =
    (λ g e. ground (arith, geometry-covers capacity h), ground arith, (ground arith, ground arith))
