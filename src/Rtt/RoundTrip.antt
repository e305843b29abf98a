-- ===== src/Rtt/RoundTrip.antt =====
-- The encoding of scope packets, and `decode_bytes` of src/sampler/rttsampler.rs.
use ocdscope.Prelude.{
  ℕ, zero, suc, ◌/◌, ◌%◌, ◌^◌, ◌<◌, ◌≡◌, refl, sym, ap, ◌∙◌, inl, inr, true, some, List, [], ◌∷◌,
  ◌++◌, map, ◌==◌, if◌then◌else◌, length, length-append, drop-length_append, ok, slice, slice_from,
  slice_middle, slice_from_in_range, drop, All, arith,
}
use mathlib.Core.Path.{subst}
use native.Mathlib.Nat.{pow-suc}
use ocdscope.Prelude.Int.{pos}
use ocdscope.Text.{Bytes}
use ocdscope.Float.{Floats}
use ocdscope.Rtt.Packet.{
  RttScopePacketFieldType, boolean, float, signed, unsigned, RttScopePacketField, NoneFound,
  from_le_bytes, decode_sized, decode, on_read, decode_fields, to_signed, decode_time, decode_bytes,
}
use ocdscope.Rtt.Fields.{IsSize, IsField}

-- `n` in `k` bytes, the least significant first.
pub to_le_bytes : ℕ → ℕ → Bytes
to_le_bytes zero n = []
to_le_bytes (suc k) n = (n % 256) ∷ to_le_bytes k (n / 256)

from_le_bytes-to_le_bytes : (k n : ℕ) → n < 256 ^ k → from_le_bytes k (to_le_bytes k n) ≡ some n
unfolding from_le_bytes to_le_bytes
from_le_bytes-to_le_bytes zero n h = ap some (omega arith)
from_le_bytes-to_le_bytes (suc k) n h =
    rw (from_le_bytes-to_le_bytes k (n / 256) (omega (arith, pow-suc 256 k)))
      (ap some (omega arith))

length-to_le_bytes : (k n : ℕ) → length (to_le_bytes k n) ≡ k
unfolding to_le_bytes
length-to_le_bytes zero n = refl
length-to_le_bytes (suc k) n = ap suc (length-to_le_bytes k (n / 256))

-- A field with the bit pattern that it is sent as.
pub record Raw : Type 0 where
  pub of : RttScopePacketField
  pub pattern_ : ℕ

-- The pattern fits the field.
abbrev pub Fits : Raw → Type 0
Fits r = IsField r.of × (r.pattern_ < 256 ^ r.of.size)

pub encode_fields : List Raw → Bytes
encode_fields [] = []
encode_fields (r ∷ rs) = to_le_bytes r.of.size r.pattern_ ++ encode_fields rs

module _ (fl : Floats) where
  -- The value that a pattern stands for.
  abbrev pub meaning : RttScopePacketFieldType → ℕ → ℕ → fl.F32
  meaning boolean k n = fl.int_f32 (if n == 0 then pos 0 else pos 1)
  meaning float k n = fl.bits_f32 n
  meaning signed k n = fl.int_f32 (to_signed k n)
  meaning unsigned k n = fl.int_f32 (pos n)

  abbrev pub value : Raw → fl.F32
  value r = meaning r.of.type_ r.of.size r.pattern_

  -- A pattern that is sent as a field decodes to its meaning.
  abbrev Means : RttScopePacketFieldType → ℕ → Type 0
  Means t k = (n : ℕ) → n < 256 ^ k → decode_sized fl t k (to_le_bytes k n) ≡ some (meaning t k n)

  size-Means : (t : RttScopePacketFieldType) (k : ℕ) → IsSize t k → Means t k
  unfolding decode_sized
  size-Means boolean k h = subst (Means boolean) (sym h) λ n s.
      unfold to_le_bytes in
      ap (λ (m : ℕ). some (fl.int_f32 (if m == 0 then pos 0 else pos 1))) (omega arith)
  size-Means float k h =
      subst (Means float) (sym h)
        λ n s. ap (on_read fl fl.bits_f32) (from_le_bytes-to_le_bytes 4 n s)
  size-Means signed k (inl h) =
      subst (Means signed) (sym h)
        λ n s. ap (on_read fl (λ m. fl.int_f32 (to_signed 1 m))) (from_le_bytes-to_le_bytes 1 n s)
  size-Means signed k (inr (inl h)) =
      subst (Means signed) (sym h)
        λ n s. ap (on_read fl (λ m. fl.int_f32 (to_signed 2 m))) (from_le_bytes-to_le_bytes 2 n s)
  size-Means signed k (inr (inr h)) =
      subst (Means signed) (sym h)
        λ n s. ap (on_read fl (λ m. fl.int_f32 (to_signed 4 m))) (from_le_bytes-to_le_bytes 4 n s)
  size-Means unsigned k (inl h) =
      subst (Means unsigned) (sym h)
        λ n s. ap (on_read fl (λ m. fl.int_f32 (pos m))) (from_le_bytes-to_le_bytes 1 n s)
  size-Means unsigned k (inr (inl h)) =
      subst (Means unsigned) (sym h)
        λ n s. ap (on_read fl (λ m. fl.int_f32 (pos m))) (from_le_bytes-to_le_bytes 2 n s)
  size-Means unsigned k (inr (inr h)) =
      subst (Means unsigned) (sym h)
        λ n s. ap (on_read fl (λ m. fl.int_f32 (pos m))) (from_le_bytes-to_le_bytes 4 n s)

  -- Bytes of a known number are cut off the front.
  slice_known :
      (k : ℕ) (xs ys : Bytes)
      → length xs ≡ k
      → (slice {E = NoneFound} 0 k (xs ++ ys) ≡ ok xs)
        × (slice_from {E = NoneFound} k (xs ++ ys) ≡ ok ys)
  slice_known k xs ys h = (
    slice_middle [] xs ys 0 k refl (omega arith),
    slice_from_in_range k (xs ++ ys) (omega (arith, length-append xs ys))
        ∙ ap ok (ap (λ n. drop n (xs ++ ys)) (sym h) ∙ drop-length_append xs ys),
  )

  decode_fields-encode_fields :
      (rs : List Raw)
      → All Fits rs
      → decode_fields fl (map (λ r. r.of) rs) (encode_fields rs) ≡ ok (map value rs)
  unfolding decode_fields encode_fields decode
  decode_fields-encode_fields [] h = refl
  decode_fields-encode_fields (r ∷ rs) ((hf, small), h) =
      let (front, behind) =
        slice_known r.of.size (to_le_bytes r.of.size r.pattern_) (encode_fields rs)
          (length-to_le_bytes r.of.size r.pattern_) in
      rw (front, behind, size-Means r.of.type_ r.of.size hf r.pattern_ small)
        (rw (decode_fields-encode_fields rs h))

  -- A packet of a 32-bit time and one bit pattern for each field, each as wide as its field,
  -- decodes to the time and the values that the patterns stand for.
  pub decode_bytes-encode :
      (time : ℕ) (rs : List Raw)
      → time < 2 ^ 32
      → All Fits rs
      → decode_bytes fl
          (record { has_u32_us_time = true; fields = map (λ r. r.of) rs })
          (to_le_bytes 4 time ++ encode_fields rs)
        ≡ ok (some time, map value rs)
  unfolding decode_bytes decode_time
  decode_bytes-encode time rs small h =
      let (front, behind) =
        slice_known 4 (to_le_bytes 4 time) (encode_fields rs) (length-to_le_bytes 4 time) in
      rw (front, behind, from_le_bytes-to_le_bytes 4 time small)
        (rw (decode_fields-encode_fields rs h))
