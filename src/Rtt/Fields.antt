-- ===== src/Rtt/Fields.antt =====
-- The fields that are parsed by src/sampler/rttsampler.rs, their sizes and their decoding.
use ocdscope.Prelude.{
  ℕ, zero, suc, ◌+◌, ◌≡◌, ◌≢◌, refl, ap, ◌⊎◌, inl, inr, Bool, true, false, Option, none, some, List,
  [], ◌∷◌, map, if◌then◌else◌, length, length-drop, length-take, ok, Ensures, Ensures->>=,
  Ensures-eq_ok, slice, slice_from, slice_front, slice_from_in_range, take, drop, All, arith,
  Option-cases, Bool-cases,
}
use ocdscope.Text.{Bytes, codes, strip_prefix, lower_byte}
use ocdscope.Float.{Floats}
use ocdscope.Rtt.Packet.{
  RttScopePacketFieldType, boolean, float, signed, unsigned, RttScopePacketField, NoneFound,
  parse_field, from_le_bytes, decode_sized, decode, decode_fields, RttScopePacketStructure,
  fields_size, packet_size, decode_time, decode_bytes, last_part, is_char_boundary, parse_fields,
  with_time, parse_format_string, parse_scope_packet_structure,
}

abbrev pub IsSize : RttScopePacketFieldType → ℕ → Type 0
IsSize boolean n = n ≡ 1
IsSize float n = n ≡ 4
IsSize signed n = (n ≡ 1) ⊎ (n ≡ 2) ⊎ (n ≡ 4)
IsSize unsigned n = (n ≡ 1) ⊎ (n ≡ 2) ⊎ (n ≡ 4)

-- The type and the size of a field fit together.
abbrev pub IsField : RttScopePacketField → Type 0
IsField f = IsSize f.type_ f.size

parse_field-IsField : (d : Bytes) → Ensures (parse_field d) IsField
unfolding parse_field
parse_field-IsField d = ground arith

parse_fields-IsField : (s : Bytes) → Ensures (parse_fields s) (All IsField)
unfolding parse_fields
parse_fields-IsField [] = tt
parse_fields-IsField (a ∷ []) = tt
parse_fields-IsField (a ∷ b ∷ s) = elim (Bool-cases (is_char_boundary s)) [
  | inr cut ↦ rw cut tt
  | inl whole ↦ rw whole (
      Ensures->>= IsField (All IsField) (parse_field (a ∷ b ∷ [])) _
        (parse_field-IsField (a ∷ b ∷ []))
        λ f hf.
          Ensures->>= (All IsField) (All IsField) (parse_fields s) _ (parse_fields-IsField s)
            λ fs hfs. (hf, hfs))
]

abbrev HasFields : RttScopePacketStructure → Type 0
HasFields st = All IsField st.fields

with_time-HasFields : (time : Bool) (s : Bytes) → Ensures (with_time time s) HasFields
with_time-HasFields time s =
    Ensures->>= (All IsField) HasFields (parse_fields s) _ (parse_fields-IsField s) (λ fs h. h)

parse_format_string-HasFields : (s : Bytes) → Ensures (parse_format_string s) HasFields
unfolding parse_format_string strip_prefix
parse_format_string-HasFields s = elim (Option-cases (strip_prefix (codes "t4") s)) [
  | inl e ↦ rw e (with_time-HasFields false s)
  | inr (t, e) ↦ rw e (with_time-HasFields true t)
]

-- A structure that is parsed has well-sized fields.
pub parse_scope_packet_structure-IsField :
    (name : Bytes) {st : RttScopePacketStructure}
    → parse_scope_packet_structure name ≡ ok st
    → All IsField st.fields
unfolding parse_scope_packet_structure
parse_scope_packet_structure-IsField name h =
    Ensures-eq_ok HasFields (parse_scope_packet_structure name)
      (parse_format_string-HasFields (map lower_byte (last_part [] name))) h

-- As many bytes as a number has make a number.
from_le_bytes-ne-none : (k : ℕ) (s : Bytes) → length s ≡ k → from_le_bytes k s ≢ none
unfolding from_le_bytes
from_le_bytes-ne-none zero [] h = λ e. cc
from_le_bytes-ne-none zero (b ∷ s) h = absurd (omega arith)
from_le_bytes-ne-none (suc k) [] h = absurd (omega arith)
from_le_bytes-ne-none (suc k) (b ∷ s) h = ground (arith, from_le_bytes-ne-none k s (omega arith))

module _ (fl : Floats) where
  decode_sized-ne-none :
      (t : RttScopePacketFieldType) (n : ℕ) (s : Bytes)
      → IsSize t n
      → length s ≡ n
      → decode_sized fl t n s ≢ none
  unfolding decode_sized
  decode_sized-ne-none boolean n [] h e = absurd (omega arith)
  decode_sized-ne-none boolean n (b ∷ s) h e = λ x. cc
  decode_sized-ne-none float n s h e = ground (arith, from_le_bytes-ne-none 4 s (omega arith))
  decode_sized-ne-none signed n s h e =
      ground
        (arith, from_le_bytes-ne-none 1 s, from_le_bytes-ne-none 2 s, from_le_bytes-ne-none 4 s)
  decode_sized-ne-none unsigned n s h e =
      ground
        (arith, from_le_bytes-ne-none 1 s, from_le_bytes-ne-none 2 s, from_le_bytes-ne-none 4 s)

  -- Fields decode from as many bytes as they take, to one value each.
  decode_fields_total :
      (fs : List RttScopePacketField) (s : Bytes)
      → All IsField fs
      → length s ≡ fields_size fs
      → (vs : List fl.F32) × (decode_fields fl fs s ≡ ok vs) × (length vs ≡ length fs)
  unfolding decode_fields fields_size decode
  decode_fields_total [] s h e = ([], refl, refl)
  decode_fields_total (f ∷ fs) s (hf, h) e =
      let (vs, p, q) =
        decode_fields_total fs (drop f.size s) h (omega (arith, length-drop f.size s)) in
      let cut : slice {E = NoneFound} 0 f.size s ≡ ok (take f.size s) =
        slice_front f.size s (omega arith) in
      let behind : slice_from {E = NoneFound} f.size s ≡ ok (drop f.size s) =
        slice_from_in_range f.size s (omega arith) in
      elim (Option-cases (decode_sized fl f.type_ f.size (take f.size s))) [
        | inl x ↦ absurd (
            decode_sized-ne-none f.type_ f.size (take f.size s) hf
              (omega (arith, length-take f.size s)) x)
        | inr (v, x) ↦ (v ∷ vs, rw (cut, behind, x, p), ap suc q)
      ]

  abbrev pub has_time : Option ℕ → Bool
  has_time none = false
  has_time (some t) = true

  decode_time_total :
      (time : Bool) (s : Bytes) (n : ℕ)
      → length s ≡ n + (if time then 4 else 0)
      → (t : Option ℕ) × (s' : Bytes) × (decode_time time s ≡ ok (t, s'))
        × (length s' ≡ n)
        × (has_time t ≡ time)
  unfolding decode_time
  decode_time_total false s n h = (none, s, refl, omega arith, refl)
  decode_time_total true s n h = elim (Option-cases (from_le_bytes 4 (take 4 s))) [
    | inl x ↦ absurd (from_le_bytes-ne-none 4 (take 4 s) (omega (arith, length-take 4 s)) x)
    | inr (t, x) ↦ (
      some t,
      drop 4 s,
      rw (
        slice_front {E = NoneFound} 4 s (omega arith),
        slice_from_in_range {E = NoneFound} 4 s (omega arith),
        x,
      ),
      omega (arith, length-drop 4 s),
      refl,
    )
  ]

  -- A packet of the size that a parsed channel name describes decodes: to a time exactly if the
  -- name has one, and to one value for each field.
  pub decode_bytes_total :
      (name : Bytes) {st : RttScopePacketStructure} (s : Bytes)
      → parse_scope_packet_structure name ≡ ok st
      → length s ≡ packet_size st
      → (t : Option ℕ) × (vs : List fl.F32) × (decode_bytes fl st s ≡ ok (t, vs))
        × (has_time t ≡ st.has_u32_us_time)
        × (length vs ≡ length st.fields)
  unfolding decode_bytes packet_size
  decode_bytes_total name {st} s parsed h =
      let (t, s', p, rest, timed) =
        decode_time_total st.has_u32_us_time s (fields_size st.fields) h in
      let (vs, q, count) =
        decode_fields_total st.fields s' (parse_scope_packet_structure-IsField name parsed) rest in
      (t, vs, rw (p, q), timed, count)
