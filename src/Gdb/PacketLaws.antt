-- ===== src/Gdb/PacketLaws.antt =====
-- `parse_gdb_packet` and `build_gdb_packet` of src/gdbremote.rs: frames and checksums.
use mathlib.Core.List.{foldl}
use ocdscope.Prelude.{
  ℕ, suc, ◌+◌, ◌/◌, ◌%◌, ◌≤◌, ◌<◌, ◌≡◌, ◌≢◌, refl, sym, ap, ◌∙◌, ◌⊎◌, inl, inr, false, some, [],
  ◌∷◌, ◌++◌, arith, ltb, ◌==◌, ==_iff, if◌then◌else◌, append_assoc, Lacks, length, take, drop,
  position, position-append, position-eq-some, position-cons_none, position-cons_some, slice,
  slice_middle, ok, err, panic, ◌>>=◌, length-append, length-drop, Option-cases, Bool-cases,
}
use ocdscope.Text.{Bytes, from_utf8, format_hex, hex_digit, max_u8}
use ocdscope.Text.Radix.{from_str_radix-format_hex}
use ocdscope.Gdb.Packet.{
  ParseMessage, packet_too_short, missing_initial, no_final, too_short_for_checksum,
  checksum_mismatch, GdbRemoteError, parse_error, Result, checksum, build_gdb_packet, read_checksum,
  parse_gdb_packet,
}

-- The test at the end of `parse_gdb_packet`, on the contents and the number that the digits give.
pub check : Bytes → ℕ → Result Bytes
check contents p =
    if checksum contents == p
    then ok contents
    else err (parse_error (checksum_mismatch (checksum contents) p))

module _ (contents rest : Bytes) (h l : ℕ) where
  abbrev frame : Bytes
  frame = b'$' ∷ contents ++ b'#' ∷ h ∷ l ∷ rest

  length-frame : length frame ≡ length contents + 4 + length rest
  length-frame = omega (arith, length-append contents (b'#' ∷ h ∷ l ∷ rest))

  slice_contents : slice {E = GdbRemoteError} 1 (suc (length contents)) frame ≡ ok contents
  slice_contents = slice_middle (b'$' ∷ []) contents (b'#' ∷ h ∷ l ∷ rest) _ _ refl (omega arith)

  slice_digits :
      slice {E = GdbRemoteError} (suc (length contents) + 1) (suc (length contents) + 3) frame
      ≡ ok (h ∷ l ∷ [])
  slice_digits =
      ap (slice (suc (length contents) + 1) (suc (length contents) + 3))
        (sym (append_assoc (b'$' ∷ contents) (b'#' ∷ []) (h ∷ l ∷ rest)))
      ∙ slice_middle ((b'$' ∷ contents) ++ b'#' ∷ []) (h ∷ l ∷ []) rest _ _
          (omega (arith, length-append (b'$' ∷ contents) (b'#' ∷ []))) (omega arith)

  -- On a complete frame only the checksum decides.
  pub parse_gdb_packet-frame :
      Lacks b'#' contents → parse_gdb_packet frame ≡ (read_checksum (h ∷ l ∷ []) >>= check contents)
  unfolding parse_gdb_packet check
  parse_gdb_packet-frame lacks =
      let long : ltb (length frame) 4 ≡ false = ground (arith, length-frame) in
      let found : position (λ b. b == b'#') frame ≡ some (suc (length contents)) =
        position-append b'#' (b'$' ∷ contents) (h ∷ l ∷ rest) (omega arith, lacks) in
      let room : ltb (length frame) (suc (length contents) + 3) ≡ false =
        ground (arith, length-frame) in
      rw (parse_gdb_packet, long, found) (rw (room, slice_contents, slice_digits) (ground arith))

-- The bytes begin with a complete packet: `$`, contents with no `#`, `#` and two more bytes.
pub record IsFrame (bytes : Bytes) : Type 0 where
  pub contents : Bytes
  pub high : ℕ
  pub low : ℕ
  pub rest : Bytes
  pub spelled : bytes ≡ b'$' ∷ contents ++ b'#' ∷ high ∷ low ∷ rest
  pub lacks : Lacks b'#' contents

two_more : (t : Bytes) → 2 ≤ length t → (h : ℕ) × (l : ℕ) × (rest : Bytes) × (t ≡ h ∷ l ∷ rest)
two_more [] p = absurd (omega arith)
two_more (h ∷ []) p = absurd (omega arith)
two_more (h ∷ l ∷ rest) p = (h, l, rest, refl)

split-IsFrame :
    (s : Bytes) (j : ℕ)
    → position (λ b. b == b'#') s ≡ some j
    → j + 3 ≤ length s
    → IsFrame (b'$' ∷ s)
split-IsFrame s j found room =
    let (within, lacks, split) = position-eq-some b'#' s found in
    let (h, l, rest, tail) = two_more (drop (suc j) s) (omega (arith, length-drop (suc j) s)) in
    record {
      contents = take j s;
      high = h;
      low = l;
      rest = rest;
      spelled = ap (λ t. b'$' ∷ t) (split ∙ ap (λ t. take j s ++ b'#' ∷ t) tail);
      lacks = lacks;
    }

-- The bytes are a complete packet with more behind it, or they are refused without reading on.
pub parse_gdb_packet-cases :
    (bytes : Bytes)
    → IsFrame bytes ⊎ ((m : ParseMessage) × (parse_gdb_packet bytes ≡ err (parse_error m)))
unfolding parse_gdb_packet
parse_gdb_packet-cases [] = inr (packet_too_short, refl)
parse_gdb_packet-cases (c ∷ s) = elim (Bool-cases (ltb (length (c ∷ s)) 4)) [
  | inl short ↦ inr (packet_too_short, rw short)
  | inr long ↦ elim (Bool-cases (c == b'$')) [
    | inr other ↦ inr (missing_initial, rw (long, other))
    | inl dollar ↦
        rw ((==_iff c b'$').0 dollar) (elim (Option-cases (position (λ b. b == b'#') s)) [
          | inl e ↦ inr (no_final, rw (long, position-cons_none b'#' b'$' s (omega arith) e))
          | inr (j, e) ↦ elim (Bool-cases (ltb (length (c ∷ s)) (suc j + 3))) [
            | inl short ↦ inr (
              too_short_for_checksum,
              rw (long, position-cons_some b'#' b'$' s (omega arith) e) (rw short),
            )
            | inr room ↦ inl (split-IsFrame s j e (ground arith))
          ]
        ])
  ]
]

read_checksum-ne-panic : (digits : Bytes) → read_checksum digits ≢ panic
unfolding read_checksum
read_checksum-ne-panic digits = ground arith

check-ne-panic : (contents : Bytes) (r : Result ℕ) → r ≢ panic → (r >>= check contents) ≢ panic
unfolding check
check-ne-panic contents r h = ground arith

check-eq-ok :
    (contents : Bytes) (r : Result ℕ) {c : Bytes}
    → (r >>= check contents) ≡ ok c
    → (contents ≡ c) × (r ≡ ok (checksum c))
unfolding check
check-eq-ok contents r e = ground arith

parse_gdb_packet-IsFrame :
    {bytes : Bytes} (f : IsFrame bytes)
    → parse_gdb_packet bytes ≡ (read_checksum (f.high ∷ f.low ∷ []) >>= check f.contents)
parse_gdb_packet-IsFrame f =
    ap parse_gdb_packet f.spelled ∙ parse_gdb_packet-frame f.contents f.rest f.high f.low f.lacks

-- Parsing never panics: the slices it takes are in range.
pub parse_gdb_packet-ne-panic : (bytes : Bytes) → parse_gdb_packet bytes ≢ panic
parse_gdb_packet-ne-panic bytes e = elim (parse_gdb_packet-cases bytes) [
  | inr (m, refused) ↦ cc
  | inl f ↦
      check-ne-panic f.contents _ (read_checksum-ne-panic (f.high ∷ f.low ∷ []))
        (sym (parse_gdb_packet-IsFrame f) ∙ e)
]

-- What is accepted is `$`, the contents returned, which hold no `#`, then `#` and two digits that
-- read as the checksum of the contents, and any rest.
pub parse_gdb_packet_sound :
    (bytes : Bytes) {c : Bytes}
    → parse_gdb_packet bytes ≡ ok c
    → (h : ℕ) × (l : ℕ) × (rest : Bytes) × (bytes ≡ b'$' ∷ c ++ b'#' ∷ h ∷ l ∷ rest)
      × Lacks b'#' c
      × (read_checksum (h ∷ l ∷ []) ≡ ok (checksum c))
parse_gdb_packet_sound bytes {c} e = elim (parse_gdb_packet-cases bytes) [
  | inr (m, refused) ↦ cc
  | inl f ↦
      let (same_contents, digits) =
        check-eq-ok f.contents _ (sym (parse_gdb_packet-IsFrame f) ∙ e) in
      (
        f.high,
        f.low,
        f.rest,
        rw same_contents at (f.spelled),
        rw same_contents at (f.lacks),
        digits,
      )
]

checksum_from-lt : (s : Bytes) (c : ℕ) → c < 256 → foldl (λ a b. (a + b) % 256) c s < 256
checksum_from-lt [] c h = h
checksum_from-lt (b ∷ s) c h = checksum_from-lt s ((c + b) % 256) (omega arith)

pub checksum-lt : (s : Bytes) → checksum s < 256
unfolding checksum
checksum-lt s = checksum_from-lt s 0 (omega arith)

hex_digit-ascii : (d : ℕ) → d < 16 → hex_digit d < 0x80
unfolding hex_digit
hex_digit-ascii d h = ground arith

from_utf8_pair : (h l : ℕ) → h < 0x80 → l < 0x80 → from_utf8 (h ∷ l ∷ []) ≡ some (h ∷ l ∷ [])
unfolding from_utf8
from_utf8_pair h l p q = ground arith

-- The two digits of any byte are read back.
pub read_checksum-format_hex : (n : ℕ) → n < 256 → read_checksum (format_hex 2 n) ≡ ok n
unfolding read_checksum
read_checksum-format_hex n h =
    let digits : from_utf8 (format_hex 2 n) ≡ some (format_hex 2 n) =
      unfold format_hex in
      from_utf8_pair (hex_digit (n / 16 % 16)) (hex_digit (n % 16))
        (hex_digit-ascii (n / 16 % 16) (omega arith)) (hex_digit-ascii (n % 16) (omega arith)) in
    rw (digits, from_str_radix-format_hex 1 n max_u8 h (omega arith))

-- A packet that is built from contents with no `#` is parsed back, whatever bytes follow it.
pub parse-build_gdb_packet :
    (data_ rest : Bytes)
    → Lacks b'#' data_
    → parse_gdb_packet (build_gdb_packet data_ ++ rest) ≡ ok data_
unfolding build_gdb_packet format_hex check
parse-build_gdb_packet data_ rest lacks =
    let n = checksum data_ in
    ap parse_gdb_packet (append_assoc (b'$' ∷ data_) _ rest)
    ∙ parse_gdb_packet-frame data_ rest (hex_digit (n / 16 % 16)) (hex_digit (n % 16)) lacks
    ∙ ap (λ r. r >>= check data_) (read_checksum-format_hex n (checksum-lt data_))
    ∙ ground arith

-- A complete packet whose digits are the checksum of its contents is accepted.
pub parse_gdb_packet_complete :
    (d rest : Bytes) (h l : ℕ)
    → Lacks b'#' d
    → read_checksum (h ∷ l ∷ []) ≡ ok (checksum d)
    → parse_gdb_packet (b'$' ∷ d ++ b'#' ∷ h ∷ l ∷ rest) ≡ ok d
unfolding check
parse_gdb_packet_complete d rest h l lacks digits =
    parse_gdb_packet-frame d rest h l lacks ∙ rw digits (ground arith)
