-- ===== src/Utils/Laws.antt =====
-- How exact the text of `human_readable_size` of src/utils.rs is.
use ocdscope.Prelude.{
  ℕ, ◌+◌, ◌*◌, ◌/◌, ◌<◌, ◌≤◌, ◌≡◌, refl, ◌⊎◌, inl, inr, ◌++◌, ltb, ltb→lt, Bool-cases, arith,
}
use ocdscope.Text.{Bytes, codes, format_uint}
use ocdscope.Utils.{human_readable_size}

pub data SizeUnit : Type 0 where
  b kib mib gib : SizeUnit

pub suffix : SizeUnit → Bytes
suffix b = codes " B"
suffix kib = codes " KiB"
suffix mib = codes " MiB"
suffix gib = codes " GiB"

abbrev pub bytes_in : SizeUnit → ℕ
bytes_in b = 1
bytes_in kib = 1024
bytes_in mib = 1024 * 1024
bytes_in gib = 1024 * 1024 * 1024

-- The text is `count` of a unit: as many whole ones as the size has, fewer than 2048 unless they are
-- GiB, and at least two unless they are bytes.
pub record Sized (size : ℕ) : Type 0 where
  pub count : ℕ
  pub unit_ : SizeUnit
  pub shown : human_readable_size size ≡ format_uint count ++ suffix unit_
  pub low : count * bytes_in unit_ ≤ size
  pub high : size < (count + 1) * bytes_in unit_
  pub below : (unit_ ≡ gib) ⊎ (count < 2048)
  pub above : (unit_ ≡ b) ⊎ (2 ≤ count)

-- The text of every size shows a count and a unit between which the size lies: it has at least that
-- many of the unit, and less than one more; the count is below 2048 but for GiB, and at least two
-- but for bytes.
pub human_readable_size-Sized : (size : ℕ) → Sized size
unfolding human_readable_size suffix
human_readable_size-Sized size = elim (Bool-cases (ltb size 2048)) [
  | inl e ↦ record {
    count = size;
    unit_ = b;
    shown = rw (human_readable_size, e) refl;
    low = omega arith;
    high = omega arith;
    below = inr (ltb→lt size 2048 e);
    above = inl refl;
  }
  | inr e ↦ elim (Bool-cases (ltb (size / 1024) 2048)) [
    | inl f ↦ record {
      count = size / 1024;
      unit_ = kib;
      shown = rw (human_readable_size, e, f) refl;
      low = omega arith;
      high = omega arith;
      below = inr (ltb→lt (size / 1024) 2048 f);
      above = inr (ground arith);
    }
    | inr f ↦ elim (Bool-cases (ltb (size / 1024 / 1024) 2048)) [
      | inl g ↦ record {
        count = size / 1024 / 1024;
        unit_ = mib;
        shown = rw (human_readable_size, e, f, g) refl;
        low = omega arith;
        high = omega arith;
        below = inr (ltb→lt (size / 1024 / 1024) 2048 g);
        above = inr (ground arith);
      }
      | inr g ↦ record {
        count = size / 1024 / 1024 / 1024;
        unit_ = gib;
        shown = rw (human_readable_size, e, f, g) refl;
        low = omega arith;
        high = omega arith;
        below = inl refl;
        above = inr (ground arith);
      }
    ]
  ]
]
