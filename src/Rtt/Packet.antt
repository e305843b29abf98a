-- ===== src/Rtt/Packet.antt =====
-- The structure of a scope packet: the fields that the name of the RTT channel describes, and the
-- decoding of a packet (`RTTScopePacketField`, `RTTScopePacketStructure` and
-- `parse_scope_packet_structure` of src/sampler/rttsampler.rs). `None` is `err none_found`.
use ocdscope.Prelude.{
  ℕ, zero, suc, ◌+◌, ◌-◌, ◌*◌, ◌%◌, ◌^◌, Bool, true, false, not, ◌&&◌, Option, none, some, List, [],
  ◌∷◌, ◌++◌, map, ltb, leb, ◌==◌, if◌then◌else◌, get_elem?, Outcome, ok, panic, ◌>>=◌, ok_or, slice,
  slice_from,
}
use ocdscope.Prelude.Int.{ℤ, pos, negsuc}
use ocdscope.Text.{Bytes, codes, strip_prefix, lower_byte}
use ocdscope.Float.{Floats}

pub data RttScopePacketFieldType : Type 0 where
  boolean float signed unsigned : RttScopePacketFieldType

pub record RttScopePacketField : Type 0 where
  pub type_ : RttScopePacketFieldType
  pub size : ℕ

-- `None`, as the failure of a chain of `?`.
pub data NoneFound : Type 0 where
  none_found : NoneFound

abbrev pub Maybe {ℓ} : Type ℓ → Type ℓ
Maybe A = Outcome NoneFound A

-- The code points of valid UTF-8: the bytes that the current character still wants, and its bits.
unfoldable pub chars_from : ℕ → ℕ → Bytes → List ℕ
chars_from k bits [] = []
chars_from zero bits (c ∷ s) = elim (ltb c 0x80) [
  | true ↦ c ∷ chars_from 0 0 s
  | false ↦ elim (ltb c 0xE0) [
    | true ↦ chars_from 1 (c % 32) s
    | false ↦ chars_from (if ltb c 0xF0 then 2 else 3) (if ltb c 0xF0 then c % 16 else c % 8) s
  ]
]
chars_from (suc zero) bits (c ∷ s) = (bits * 64 + c % 64) ∷ chars_from 0 0 s
chars_from (suc (suc k)) bits (c ∷ s) = chars_from (suc k) (bits * 64 + c % 64) s

unfoldable pub chars : Bytes → List ℕ
unfolding chars_from
chars s = chars_from 0 0 s

abbrev field : RttScopePacketFieldType → ℕ → Option RttScopePacketField
field t n = some (record { type_ = t; size = n })

-- The `match` on the character of the type and the size.
unfoldable pub field_of : ℕ → ℕ → Option RttScopePacketField
field_of c n =
    if c == b'b' && n == 1
    then field boolean n
    else if c == b'f' && n == 4
    then field float n
    else if c == b'i'
    then field signed n
    else if c == b'u'
    then field unsigned n
    else none

-- `[1, 2, 4][['1', '2', '4'].iter().position(|&c| c == size_char)?]`
unfoldable pub size_of : ℕ → Option ℕ
size_of c =
    if c == b'1' then some 1 else if c == b'2' then some 2 else if c == b'4' then some 4 else none

unfoldable pub parse_field : Bytes → Maybe RttScopePacketField
unfolding field_of size_of
parse_field description = do
  type_char ← ok_or (get_elem? (chars description) 0) none_found
  size_char ← ok_or (get_elem? (chars description) 1) none_found
  size ← ok_or (size_of (lower_byte size_char)) none_found
  ok_or (field_of (lower_byte type_char) size) none_found

-- `uN::from_le_bytes(bytes.try_into().ok()?)` with N = 8 * k: exactly `k` bytes.
unfoldable pub from_le_bytes : ℕ → Bytes → Option ℕ
from_le_bytes zero [] = some 0
from_le_bytes zero (b ∷ s) = none
from_le_bytes (suc k) [] = none
from_le_bytes (suc k) (b ∷ s) = elim (from_le_bytes k s) [
  | none ↦ none
  | some n ↦ some (b + 256 * n)
]

-- The signed integer of `k` bytes with this bit pattern.
unfoldable pub to_signed : ℕ → ℕ → ℤ
to_signed k n = if ltb n (2 ^ (8 * k - 1)) then pos n else negsuc (2 ^ (8 * k) - n - 1)

module _ (fl : Floats) where
  open fl use {F32, bits_f32, int_f32}

  abbrev pub on_read : (ℕ → F32) → Option ℕ → Option F32
  on_read f none = none
  on_read f (some n) = some (f n)

  -- `*bytes.get(0)? != 0`
  abbrev decode_boolean : Bytes → Option F32
  decode_boolean [] = none
  decode_boolean (b ∷ s) = some (int_f32 (if b == 0 then pos 0 else pos 1))

  -- The sizes that the guards of `decode` let pass.
  unfoldable pub decode_sized : RttScopePacketFieldType → ℕ → Bytes → Option F32
  decode_sized boolean n bytes = decode_boolean bytes
  decode_sized float n bytes = on_read bits_f32 (from_le_bytes 4 bytes)
  decode_sized signed n bytes =
      if n == 1
      then on_read (λ x. int_f32 (to_signed 1 x)) (from_le_bytes 1 bytes)
      else if n == 2
      then on_read (λ x. int_f32 (to_signed 2 x)) (from_le_bytes 2 bytes)
      else if n == 4
      then on_read (λ x. int_f32 (to_signed 4 x)) (from_le_bytes 4 bytes)
      else none
  decode_sized unsigned n bytes =
      if n == 1
      then on_read (λ x. int_f32 (pos x)) (from_le_bytes 1 bytes)
      else if n == 2
      then on_read (λ x. int_f32 (pos x)) (from_le_bytes 2 bytes)
      else if n == 4
      then on_read (λ x. int_f32 (pos x)) (from_le_bytes 4 bytes)
      else none

  unfoldable pub decode : RttScopePacketField → Bytes → Option F32
  unfolding decode_sized
  decode f bytes = decode_sized f.type_ f.size bytes

  -- The loop over the fields, each of which cuts its bytes off the front.
  unfoldable pub decode_fields : List RttScopePacketField → Bytes → Maybe (List F32)
  decode_fields [] bytes = ok []
  decode_fields (f ∷ fs) bytes = do
    to_decode ← slice 0 f.size bytes
    bytes' ← slice_from f.size bytes
    value ← ok_or (decode f to_decode) none_found
    values ← decode_fields fs bytes'
    ok (value ∷ values)

pub record RttScopePacketStructure : Type 0 where
  pub has_u32_us_time : Bool
  pub fields : List RttScopePacketField

unfoldable pub fields_size : List RttScopePacketField → ℕ
fields_size [] = 0
fields_size (f ∷ fs) = f.size + fields_size fs

unfoldable pub packet_size : RttScopePacketStructure → ℕ
unfolding fields_size
packet_size st = fields_size st.fields + (if st.has_u32_us_time then 4 else 0)

-- The time at the front of a packet that has one, and the bytes behind it.
unfoldable pub decode_time : Bool → Bytes → Maybe (Option ℕ × Bytes)
decode_time false bytes = ok (none, bytes)
decode_time true bytes = do
  time_bytes ← slice 0 4 bytes
  bytes' ← slice_from 4 bytes
  time ← ok_or (from_le_bytes 4 time_bytes) none_found
  ok (some time, bytes')

unfoldable pub decode_bytes :
    (fl : Floats) → RttScopePacketStructure → Bytes → Maybe (Option ℕ × List fl.F32)
decode_bytes fl st bytes = do
  (time, bytes') ← decode_time st.has_u32_us_time bytes
  values ← decode_fields fl st.fields bytes'
  ok (time, values)

-- `split('_').last()`: what stands behind the last `_`.
unfoldable pub last_part : Bytes → Bytes → Bytes
last_part part [] = part
last_part part (c ∷ s) = last_part (if c == b'_' then [] else part ++ c ∷ []) s

-- Whether a text may be cut in front of these bytes.
unfoldable pub is_char_boundary : Bytes → Bool
is_char_boundary [] = true
is_char_boundary (c ∷ s) = not (leb 0x80 c && ltb c 0xC0)

-- The loop over pairs of bytes. A cut inside a character is a panic; one byte may be left over.
unfoldable pub parse_fields : Bytes → Maybe (List RttScopePacketField)
parse_fields [] = ok []
parse_fields (a ∷ []) = ok []
parse_fields (a ∷ b ∷ s) =
    let rest = (do f ← parse_field (a ∷ b ∷ []); fs ← parse_fields s; ok (f ∷ fs)) in
    if is_char_boundary s then rest else panic

abbrev pub with_time : Bool → Bytes → Maybe RttScopePacketStructure
with_time time s = do fs ← parse_fields s; ok (record { has_u32_us_time = time; fields = fs })

-- The format string, in lower case: `t4` for a time, and the fields.
unfoldable pub parse_format_string : Bytes → Maybe RttScopePacketStructure
parse_format_string format_string = elim (strip_prefix (codes "t4") format_string) [
  | some stripped ↦ with_time true stripped
  | none ↦ with_time false format_string
]

unfoldable pub parse_scope_packet_structure : Bytes → Maybe RttScopePacketStructure
unfolding parse_format_string
parse_scope_packet_structure channel_name =
    parse_format_string (map lower_byte (last_part [] channel_name))
