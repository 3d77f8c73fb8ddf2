-- ===== src/Sblkdev/Naming.antt =====
-- How `sblkdev_add` of blockdrv/sblkdev/device.c describes its disk to the kernel: its name above
-- all, which comes from the module's catalog.
use l3_dd_trg.Base.{
  ℕ, ◌+◌, ◌≤◌, ◌<◌, ◌≡◌, inl, inr, refl, ap, ◌∙◌, Bool, true, false, not, Option, none, some, List,
  [], ◌∷◌, ◌++◌, length, length-append, take, drop, take_all, ◌==◌, ◌||◌, ◌&&◌, if◌then◌else◌,
  ◌>>=◌, Bool-cases, arith,
}
use l3_dd_trg.Base.Bytes.{memcpy, memcpy-in-bounds, overwrite}
use l3_dd_trg.Base.Text.{text_at, NoneNul, text_at-overwrite}

-- What the driver fills in of a `struct gendisk`; `disk_name` is its array of 32 bytes.
pub record Gendisk : Type 0 where
  pub no_part : Bool
  pub major : ℕ
  pub first_minor : ℕ
  pub minors : ℕ
  pub disk_name : List ℕ
  pub disk_capacity : ℕ

abbrev pub has_percent : List ℕ → Bool
has_percent [] = false
has_percent (c ∷ s) = c == b'%' || has_percent s

abbrev put_first : ℕ → Option (List ℕ) → Option (List ℕ)
put_first c none = none
put_first c (some s) = some (c ∷ s)

-- What a format without arguments prints, behind a percent sign or not: "%%" is a percent sign.
-- `none` is any other use of a percent sign: a directive, for which there is no argument.
unfoldable pub printed : Bool → List ℕ → Option (List ℕ)
printed false [] = some []
printed true [] = none
printed escaped (c ∷ s) =
    let more = printed (c == b'%' && not escaped) s in
    if c == b'%'
    then (if escaped then put_first c more else more)
    else if escaped
    then none
    else put_first c more

-- `sprintf(disk->disk_name, name)`: the text is copied with its NUL. `none` is a byte out of the
-- array's bounds, or a directive.
unfoldable print_name : List ℕ → List ℕ → Option (List ℕ)
unfolding printed
print_name disk_name name =
    printed false name >>= λ text. memcpy disk_name 0 (text ++ 0 ∷ []) 0 (length text + 1)

-- From the flags to `set_capacity`, for a name and a capacity of the catalog.
unfoldable pub describe_disk : ℕ → ℕ → List ℕ → ℕ → Gendisk → Option Gendisk
unfolding print_name
describe_disk major minor name capacity disk = print_name disk.disk_name name >>= λ written.
    some (record {
      no_part = true;
      major = major;
      first_minor = minor;
      minors = 1;
      disk_name = written;
      disk_capacity = capacity;
    })

-- The format that prints a text.
abbrev pub doubled : List ℕ → List ℕ
doubled [] = []
doubled (c ∷ s) = let more = doubled s in if c == b'%' then c ∷ c ∷ more else c ∷ more

printed-doubled : (text : List ℕ) → printed false (doubled text) ≡ some text
unfolding printed
printed-doubled [] = refl
printed-doubled (c ∷ s) = elim (Bool-cases (c == b'%')) [
  | inl percent ↦ rw (percent, percent, printed-doubled s) refl
  | inr plain ↦ rw (plain, plain, printed-doubled s) refl
]

pub doubled_plain : (text : List ℕ) → has_percent text ≡ false → doubled text ≡ text
doubled_plain [] h = refl
doubled_plain (c ∷ s) h = elim (Bool-cases (c == b'%')) [
  | inl percent ↦ cc (rw percent at h)
  | inr plain ↦ rw plain (ap (λ t. c ∷ t) (doubled_plain s (rw plain at h)))
]

-- A text without NUL, and the name of a catalog that prints it, with every percent sign of the
-- text doubled, for a disk whose array has 32 bytes: if the text has fewer than 32 bytes, the
-- kernel finds a disk of that text as its name, with the minor number and the capacity of the
-- device; if it has 32 bytes or more, the array is overrun.
pub describe_disk_lem :
    (major minor : ℕ) (text : List ℕ) (capacity : ℕ) (disk : Gendisk)
    → NoneNul text
    → length disk.disk_name ≡ 32
    → (length text < 32
        → (found : Gendisk) × (describe_disk major minor (doubled text) capacity disk ≡ some found)
          × (text_at found.disk_name ≡ text)
          × (found.first_minor ≡ minor)
          × (found.disk_capacity ≡ capacity))
      × (32 ≤ length text → describe_disk major minor (doubled text) capacity disk ≡ none)
unfolding describe_disk print_name
describe_disk_lem major minor text capacity disk n l =
    let total = length-append text (0 ∷ []) in
    let whole : take (length text + 1) (text ++ 0 ∷ []) ≡ text ++ 0 ∷ [] =
      take_all (length text + 1) (text ++ 0 ∷ []) (omega (arith, total)) in
    (
      λ short.
          let copied =
            memcpy-in-bounds disk.disk_name 0 (text ++ 0 ∷ []) 0 (length text + 1)
              (omega (arith, l)) (omega (arith, total)) in
          let written =
            overwrite disk.disk_name 0 (take (length text + 1) (drop 0 (text ++ 0 ∷ []))) in
          (
            record {
              no_part = true;
              major = major;
              first_minor = minor;
              minors = 1;
              disk_name = written;
              disk_capacity = capacity;
            },
            rw (printed-doubled text, copied) refl,
            ap (λ b. text_at (overwrite disk.disk_name 0 b)) whole
                ∙ text_at-overwrite disk.disk_name text n (omega (arith, l)),
            refl,
            refl,
          ),
      λ long. rw (printed-doubled text) (unfold memcpy in ground (arith, l)),
    )
