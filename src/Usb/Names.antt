-- ===== src/Usb/Names.antt =====
-- The two texts that `dev_probe` of laserp.c and of mymouse_usb.c puts into the driver's context, the
-- name and the physical path of the input device. A text is the list of its bytes before the NUL.
use l3_dd_trg.Base.{
  ℕ, zero, suc, ◌-◌, ◌≤◌, ◌<◌, ◌≡◌, ◌∙◌, refl, ap, Option, none, some, List, [], ◌∷◌, ◌++◌, length,
  length-append, length-take, take, take_all, append_assoc, arith,
}
use l3_dd_trg.Base.Text.{hex4}

-- linux/string.h as the driver uses it: the text in an array of a given size after the call.
pub record Strings : Type 0 where
  -- `strscpy(dest, src, size)`
  pub strscpy : List ℕ → ℕ → List ℕ
  -- `strlcat(dest, src, size)`
  pub strlcat : List ℕ → List ℕ → ℕ → List ℕ
  -- `snprintf(dest, size, ...)` of a directive that gives this text
  pub snprintf : List ℕ → ℕ → List ℕ
  pub strscpy_lem : (src : List ℕ) (size : ℕ) → 0 < size → strscpy src size ≡ take (size - 1) src
  pub strlcat_lem :
      (dest src : List ℕ) (size : ℕ)
      → length dest < size
      → strlcat dest src size ≡ take (size - 1) (dest ++ src)
  pub snprintf_lem :
      (text : List ℕ) (size : ℕ) → 0 < size → snprintf text size ≡ take (size - 1) text

-- What the USB core read of a device: the two texts, if the device has them, and the two numbers.
pub record UsbDevice : Type 0 where
  pub manufacturer : Option (List ℕ)
  pub product : Option (List ℕ)
  pub id_vendor : ℕ
  pub id_product : ℕ

-- sizeof of `name` and of `phys`
abbrev pub name_size : ℕ
name_size = 128

abbrev phys_size : ℕ
phys_size = 64

-- "USB <unknown device> %04x:%04x"
abbrev unknown_device : UsbDevice → List ℕ
unknown_device d =
    b'U'
    ∷ b'S'
    ∷ b'B'
    ∷ b' '
    ∷ b'<'
    ∷ b'u'
    ∷ b'n'
    ∷ b'k'
    ∷ b'n'
    ∷ b'o'
    ∷ b'w'
    ∷ b'n'
    ∷ b' '
    ∷ b'd'
    ∷ b'e'
    ∷ b'v'
    ∷ b'i'
    ∷ b'c'
    ∷ b'e'
    ∷ b'>'
    ∷ b' '
    ∷ (hex4 d.id_vendor ++ b':' ∷ hex4 d.id_product)

-- "/input0"
abbrev input0 : List ℕ
input0 = b'/' ∷ b'i' ∷ b'n' ∷ b'p' ∷ b'u' ∷ b't' ∷ b'0' ∷ []

module _ (s : Strings) where
  -- The product's name goes behind the manufacturer's, with a space.
  abbrev pub add_product : Option (List ℕ) → Option (List ℕ) → List ℕ → List ℕ
  add_product manufacturer none name = name
  add_product none (some product) name = s.strlcat name product name_size
  add_product (some m) (some product) name =
      s.strlcat (s.strlcat name (b' ' ∷ []) name_size) product name_size

  abbrev pub or_unknown : UsbDevice → List ℕ → List ℕ
  or_unknown d [] = s.snprintf (unknown_device d) name_size
  or_unknown d (c ∷ name) = c ∷ name

  -- The array is all zeros, the empty text, when the probe begins.
  abbrev pub copy_manufacturer : Option (List ℕ) → List ℕ
  copy_manufacturer none = []
  copy_manufacturer (some m) = s.strscpy m name_size

  unfoldable pub device_name : UsbDevice → List ℕ
  device_name d =
      or_unknown d (add_product d.manufacturer d.product (copy_manufacturer d.manufacturer))

  -- `path` is what `usb_make_path` prints.
  unfoldable pub device_phys : List ℕ → List ℕ
  device_phys path = s.strlcat (s.snprintf path phys_size) input0 phys_size

-- The texts that the device has, with a space between them.
abbrev own_text : Option (List ℕ) → Option (List ℕ) → List ℕ
own_text none none = []
own_text none (some p) = p
own_text (some m) none = m
own_text (some m) (some p) = m ++ b' ' ∷ p

abbrev or_else : List ℕ → List ℕ → List ℕ
or_else [] other = other
or_else (c ∷ text) other = c ∷ text

-- The name that is meant.
abbrev pub full_name : UsbDevice → List ℕ
full_name d = or_else (own_text d.manufacturer d.product) (unknown_device d)

-- Cutting twice is cutting once.
take-append-take : (n : ℕ) (xs ys : List ℕ) → take n (take n xs ++ ys) ≡ take n (xs ++ ys)
take-append-take zero xs ys = refl
take-append-take (suc n) [] ys = refl
take-append-take (suc n) (x ∷ xs) ys = ap (λ r. x ∷ r) (take-append-take n xs ys)

module _ (s : Strings) where
  cat_cut : (xs ys : List ℕ) → s.strlcat (take 127 xs) ys 128 ≡ take 127 (xs ++ ys)
  cat_cut xs ys =
      s.strlcat_lem (take 127 xs) ys 128 (omega (arith, length-take 127 xs))
      ∙ take-append-take 127 xs ys

  add_product_lem :
      (m p : Option (List ℕ)) → add_product s m p (copy_manufacturer s m) ≡ take 127 (own_text m p)
  add_product_lem none none = refl
  add_product_lem (some m) none = s.strscpy_lem m 128 (omega arith)
  add_product_lem none (some p) = cat_cut [] p
  add_product_lem (some m) (some p) =
      ap (λ name. s.strlcat (s.strlcat name (b' ' ∷ []) 128) p 128)
        (s.strscpy_lem m 128 (omega arith))
      ∙ ap (λ name. s.strlcat name p 128) (cat_cut m (b' ' ∷ []))
      ∙ cat_cut (m ++ b' ' ∷ []) p
      ∙ ap (take 127) (append_assoc m (b' ' ∷ []) p)

  or_unknown_lem :
      (d : UsbDevice) (text : List ℕ)
      → or_unknown s d (take 127 text) ≡ take 127 (or_else text (unknown_device d))
  or_unknown_lem d [] = s.snprintf_lem (unknown_device d) 128 (omega arith)
  or_unknown_lem d (c ∷ text) = refl

  or_else-nonempty : (text : List ℕ) (d : UsbDevice) → 0 < length (or_else text (unknown_device d))
  or_else-nonempty [] d = omega arith
  or_else-nonempty (c ∷ text) d = omega arith

  -- Over any string functions with the documented laws, for every device: the name is that of the
  -- manufacturer and that of the product, with a space between them if the device has both, or the
  -- text with the two numbers where these give none, cut to 127 bytes; it fits its array with the NUL
  -- and is never empty.
  pub device_name_lem :
      (d : UsbDevice)
      → (device_name s d ≡ take 127 (full_name d))
        × (length (device_name s d) < name_size)
        × (0 < length (device_name s d))
  unfolding device_name
  device_name_lem d =
      let cut =
        ap (or_unknown s d) (add_product_lem d.manufacturer d.product)
        ∙ or_unknown_lem d (own_text d.manufacturer d.product) in
      let size = ap length cut ∙ length-take 127 (full_name d) in
      (
        cut,
        omega (arith, size),
        omega (arith, size, or_else-nonempty (own_text d.manufacturer d.product) d),
      )

  -- The path fits its array, and where what usb_make_path prints has no more than 56 bytes, it ends in
  -- "/input0".
  pub device_phys_lem :
      (path : List ℕ)
      → (device_phys s path ≡ take 63 (path ++ input0))
        × (length path ≤ 56 → device_phys s path ≡ path ++ input0)
  unfolding device_phys
  device_phys_lem path =
      let cut =
        ap (λ text. s.strlcat text input0 64) (s.snprintf_lem path 64 (omega arith))
        ∙ s.strlcat_lem (take 63 path) input0 64 (omega (arith, length-take 63 path))
        ∙ take-append-take 63 path input0 in
      (cut, λ h. cut ∙ take_all 63 (path ++ input0) (omega (arith, length-append path input0)))
