-- ===== src/Rtt/Names.antt =====
-- The naming convention of scope channels, and `parse_scope_packet_structure` of
-- src/sampler/rttsampler.rs.
use ocdscope.Prelude.{
  ℕ, ◌+◌, ◌≡◌, ◌≢◌, refl, sym, ap, ◌∙◌, inl, inr, Bool, true, false, none, List, [], ◌∷◌, ◌++◌,
  append_assoc, append-nil, map, ◌==◌, if◌then◌else◌, ok, All, Lacks, arith,
}
use mathlib.Core.Path.{subst}
use ocdscope.Text.{Bytes, codes, strip_prefix, lower_byte}
use ocdscope.Rtt.Packet.{
  RttScopePacketFieldType, boolean, float, signed, unsigned, RttScopePacketField, chars,
  parse_field, RttScopePacketStructure, last_part, is_char_boundary, parse_fields,
  parse_scope_packet_structure, with_time, parse_format_string,
}
use ocdscope.Rtt.Fields.{IsSize, IsField}

abbrev letter : RttScopePacketFieldType → ℕ
letter boolean = b'B'
letter float = b'F'
letter signed = b'I'
letter unsigned = b'U'

-- The field codes of the naming convention: `F4` is a float of four bytes.
pub field_codes : List RttScopePacketField → Bytes
field_codes [] = []
field_codes (f ∷ fs) = letter f.type_ ∷ (b'0' + f.size) ∷ field_codes fs

-- The name of a channel: anything, `_`, `T4` if packets have a time, and the field codes.
pub channel_name : Bytes → RttScopePacketStructure → Bytes
channel_name prefix st =
    prefix ++ b'_' ∷ ((if st.has_u32_us_time then codes "T4" else []) ++ field_codes st.fields)

last_part-Lacks : (part s : Bytes) → Lacks b'_' s → last_part part s ≡ part ++ s
unfolding last_part
last_part-Lacks part [] h = sym (append-nil part)
last_part-Lacks part (c ∷ s) (hc, h) =
    let other : (c == b'_') ≡ false = ground arith in
    rw other (last_part-Lacks (part ++ c ∷ []) s h ∙ append_assoc part (c ∷ []) s)

last_part_behind : (part prefix s : Bytes) → Lacks b'_' s → last_part part (prefix ++ b'_' ∷ s) ≡ s
unfolding last_part
last_part_behind part [] s h = last_part-Lacks [] s h
last_part_behind part (c ∷ prefix) s h =
    last_part_behind (if c == b'_' then [] else part ++ c ∷ []) prefix s h

-- The code of a field, in lower case, is read as the field.
abbrev Reads : RttScopePacketFieldType → ℕ → Type 0
Reads t n =
    parse_field (lower_byte (letter t) ∷ lower_byte (b'0' + n) ∷ [])
    ≡ ok (record { type_ = t; size = n })

code-Reads : (t : RttScopePacketFieldType) (n : ℕ) → IsSize t n → Reads t n
unfolding parse_field lower_byte chars
code-Reads boolean n h = subst (Reads boolean) (sym h) refl
code-Reads float n h = subst (Reads float) (sym h) refl
code-Reads signed n (inl h) = subst (Reads signed) (sym h) refl
code-Reads signed n (inr (inl h)) = subst (Reads signed) (sym h) refl
code-Reads signed n (inr (inr h)) = subst (Reads signed) (sym h) refl
code-Reads unsigned n (inl h) = subst (Reads unsigned) (sym h) refl
code-Reads unsigned n (inr (inl h)) = subst (Reads unsigned) (sym h) refl
code-Reads unsigned n (inr (inr h)) = subst (Reads unsigned) (sym h) refl

-- The codes begin with no byte inside a character.
boundary :
    (fs : List RttScopePacketField) → is_char_boundary (map lower_byte (field_codes fs)) ≡ true
unfolding is_char_boundary field_codes lower_byte
boundary [] = refl
boundary (f ∷ fs) = go f.type_
  where
    go : (t : RttScopePacketFieldType) → is_char_boundary (lower_byte (letter t) ∷ []) ≡ true
    go boolean = refl
    go float = refl
    go signed = refl
    go unsigned = refl

parse_fields-codes :
    (fs : List RttScopePacketField)
    → All IsField fs
    → parse_fields (map lower_byte (field_codes fs)) ≡ ok fs
unfolding parse_fields field_codes
parse_fields-codes [] h = refl
parse_fields-codes (f ∷ fs) (hf, h) =
    rw (boundary fs, code-Reads f.type_ f.size hf, parse_fields-codes fs h)

codes-Lacks : (fs : List RttScopePacketField) → All IsField fs → Lacks b'_' (field_codes fs)
unfolding field_codes
codes-Lacks [] h = tt
codes-Lacks (f ∷ fs) (hf, h) = (no_letter f.type_, (no_digit f.type_ f.size hf, codes-Lacks fs h))
  where
    no_letter : (t : RttScopePacketFieldType) → letter t ≢ b'_'
    no_letter boolean = omega arith
    no_letter float = omega arith
    no_letter signed = omega arith
    no_letter unsigned = omega arith

    no_digit : (t : RttScopePacketFieldType) (n : ℕ) → IsSize t n → b'0' + n ≢ b'_'
    no_digit boolean n h = omega arith
    no_digit float n h = omega arith
    no_digit signed n h = omega arith
    no_digit unsigned n h = omega arith

untimed :
    (fs : List RttScopePacketField)
    → strip_prefix (codes "t4") (map lower_byte (field_codes fs)) ≡ none
unfolding strip_prefix field_codes lower_byte
untimed [] = refl
untimed (f ∷ fs) = go f.type_
  where
    go :
        (t : RttScopePacketFieldType)
        → strip_prefix
            (codes "t4")
            (lower_byte (letter t) ∷ lower_byte (b'0' + f.size) ∷ map lower_byte (field_codes fs))
          ≡ none
    go boolean = refl
    go float = refl
    go signed = refl
    go unsigned = refl

-- The part of a name that describes the packet.
abbrev format_codes : RttScopePacketStructure → Bytes
format_codes st = (if st.has_u32_us_time then codes "T4" else []) ++ field_codes st.fields

untimed_string :
    (s : Bytes) → strip_prefix (codes "t4") s ≡ none → parse_format_string s ≡ with_time false s
unfolding parse_format_string strip_prefix
untimed_string s e = rw e

abbrev IsParsed : RttScopePacketStructure → Type 0
IsParsed st =
    Lacks b'_' (format_codes st) × (parse_format_string (map lower_byte (format_codes st)) ≡ ok st)

parse_format_codes : (st : RttScopePacketStructure) → All IsField st.fields → IsParsed st
parse_format_codes st h = go st.has_u32_us_time
  where
    go : (time : Bool) → IsParsed (record st { has_u32_us_time = time })
    go true = (
      (omega arith, (omega arith, codes-Lacks st.fields h)),
      unfold parse_format_string strip_prefix lower_byte in rw (parse_fields-codes st.fields h),
    )
    go false = (
      codes-Lacks st.fields h,
      untimed_string (map lower_byte (field_codes st.fields)) (untimed st.fields)
          ∙ rw (parse_fields-codes st.fields h),
    )

-- A channel name that is written by the convention, with any prefix and any list of fields whose
-- sizes their types allow, is parsed to the structure that it describes.
pub parse_scope_packet_structure-channel_name :
    (prefix : Bytes) (st : RttScopePacketStructure)
    → All IsField st.fields
    → parse_scope_packet_structure (channel_name prefix st) ≡ ok st
unfolding parse_scope_packet_structure channel_name
parse_scope_packet_structure-channel_name prefix st h =
    let (lacks, parsed) = parse_format_codes st h in
    ap (λ s. parse_format_string (map lower_byte s))
      (last_part_behind [] prefix (format_codes st) lacks)
    ∙ parsed
