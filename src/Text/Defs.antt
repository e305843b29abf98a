-- ===== src/Text/Defs.antt =====
-- Rust's text routines: UTF-8 validation, `from_str_radix`, `{}`, `{:02x}`, `{:08x}`, prefixes.
use Prim.Native.Char.{code}
use Prim.Native.String.{String}
use ocdscope.Prelude.{
  ℕ, zero, suc, ◌+◌, ◌-◌, ◌*◌, ◌/◌, ◌%◌, Bool, true, false, ◌&&◌, ◌||◌, Option, none, some, List,
  [], ◌∷◌, ◌++◌, ltb, leb, ◌==◌, if◌then◌else◌, length, take,
}

abbrev pub Bytes : Type 0
Bytes = List ℕ

-- The bytes of an ASCII literal.
abbrev pub codes : String → Bytes
codes String.[] = []
codes (String.◌∷◌ c s) = code c ∷ codes s

-- What a first byte asks of the rest of its character: how many bytes follow, and the range of the
-- next one. `none` is a byte that begins no character.
pub record Follow : Type 0 where
  pub more : ℕ
  pub low : ℕ
  pub high : ℕ

abbrev pub follow : ℕ → ℕ → ℕ → Option Follow
follow k lo hi = some (record { more = k; low = lo; high = hi })

unfoldable pub utf8_lead : ℕ → Option Follow
utf8_lead c =
    if ltb c 0x80
    then follow 0 0x80 0xBF
    else if ltb c 0xC2
    then none
    else if ltb c 0xE0
    then follow 1 0x80 0xBF
    else if c == 0xE0
    then follow 2 0xA0 0xBF
    else if c == 0xED
    then follow 2 0x80 0x9F
    else if ltb c 0xF0
    then follow 2 0x80 0xBF
    else if c == 0xF0
    then follow 3 0x90 0xBF
    else if ltb c 0xF4
    then follow 3 0x80 0xBF
    else if c == 0xF4
    then follow 3 0x80 0x8F
    else none

-- `String::from_utf8(..).is_ok()`: the arguments are what the current character still asks for.
unfoldable pub utf8_scan : ℕ → ℕ → ℕ → Bytes → Bool
unfolding utf8_lead
utf8_scan zero lo hi [] = true
utf8_scan (suc k) lo hi [] = false
utf8_scan zero lo hi (c ∷ s) = elim (utf8_lead c) [
  | none ↦ false
  | some f ↦ utf8_scan f.more f.low f.high s
]
utf8_scan (suc k) lo hi (c ∷ s) = leb lo c && leb c hi && utf8_scan k 0x80 0xBF s

unfoldable pub is_utf8 : Bytes → Bool
unfolding utf8_scan
is_utf8 s = utf8_scan 0 0x80 0xBF s

-- `String::from_utf8(s).ok()`
unfoldable pub from_utf8 : Bytes → Option Bytes
unfolding is_utf8
from_utf8 s = if is_utf8 s then some s else none

-- `char::to_digit(radix)`
unfoldable pub to_digit : ℕ → ℕ → Option ℕ
to_digit radix c =
    let below = λ (d : ℕ). if ltb d radix then some d else none in
    if leb b'0' c && leb c b'9'
    then below (c - b'0')
    else if leb b'a' c && leb c b'z'
    then below (c - b'a' + 10)
    else if leb b'A' c && leb c b'Z'
    then below (c - b'A' + 10)
    else none

-- The digits of `from_str_radix` for an unsigned type whose greatest value is `max`.
unfoldable pub radix_digits : ℕ → ℕ → ℕ → Bytes → Option ℕ
radix_digits max radix acc [] = some acc
radix_digits max radix acc (c ∷ s) = elim (to_digit radix c) [
  | none ↦ none
  | some d ↦
      let rest = radix_digits max radix (acc * radix + d) s in
      if ltb max (acc * radix + d) then none else rest
]

-- `uN::from_str_radix(s, radix).ok()`: no digits is an error, and one leading `+` is allowed.
unfoldable pub from_str_radix : ℕ → ℕ → Bytes → Option ℕ
from_str_radix max radix [] = none
from_str_radix max radix (c ∷ []) = radix_digits max radix 0 (c ∷ [])
from_str_radix max radix (c ∷ d ∷ s) =
    if c == b'+' then radix_digits max radix 0 (d ∷ s) else radix_digits max radix 0 (c ∷ d ∷ s)

abbrev pub max_u8 : ℕ
max_u8 = 0xFF

abbrev pub max_u32 : ℕ
max_u32 = 0xFFFF_FFFF

abbrev pub max_usize : ℕ
max_usize = 0xFFFF_FFFF_FFFF_FFFF

unfoldable pub hex_digit : ℕ → ℕ
hex_digit d = if ltb d 10 then b'0' + d else b'a' + d - 10

-- `{:0wx}` of a number below 16 ^ w: `w` digits.
unfoldable pub format_hex : ℕ → ℕ → Bytes
unfolding hex_digit
format_hex zero n = []
format_hex (suc w) n = format_hex w (n / 16) ++ hex_digit (n % 16) ∷ []

-- The decimal digits of `n` in front of `out`, with fuel for the number of digits.
unfoldable pub decimal : ℕ → ℕ → Bytes → Bytes
decimal zero n out = out
decimal (suc f) n out =
    let rest = decimal f (n / 10) ((b'0' + n % 10) ∷ out) in
    if n / 10 == 0 then (b'0' + n % 10) ∷ out else rest

-- `{}` of an unsigned integer of at most 64 bits, which has at most 20 digits.
unfoldable pub format_uint : ℕ → Bytes
unfolding decimal
format_uint n = decimal 20 n []

-- `starts_with`
unfoldable pub starts_with : Bytes → Bytes → Bool
starts_with [] s = true
starts_with (p ∷ ps) [] = false
starts_with (p ∷ ps) (c ∷ s) = p == c && starts_with ps s

-- `strip_prefix`
unfoldable pub strip_prefix : Bytes → Bytes → Option Bytes
strip_prefix [] s = some s
strip_prefix (p ∷ ps) [] = none
strip_prefix (p ∷ ps) (c ∷ s) = if p == c then strip_prefix ps s else none

-- `a == b` of two byte strings
unfoldable pub same : Bytes → Bytes → Bool
same [] [] = true
same [] (c ∷ s) = false
same (p ∷ ps) [] = false
same (p ∷ ps) (c ∷ s) = p == c && same ps s

-- `ends_with`: some rest of the text is the suffix.
unfoldable pub ends_with : Bytes → Bytes → Bool
unfolding same
ends_with suffix [] = same suffix []
ends_with suffix (c ∷ s) = same suffix (c ∷ s) || ends_with suffix s

-- `contains`: some rest of the text begins with the pattern.
unfoldable pub contains : Bytes → Bytes → Bool
unfolding starts_with
contains pattern_ [] = starts_with pattern_ []
contains pattern_ (c ∷ s) = starts_with pattern_ (c ∷ s) || contains pattern_ s

-- `to_ascii_lowercase` of a byte
unfoldable pub lower_byte : ℕ → ℕ
lower_byte c = if leb b'A' c && leb c b'Z' then c + 32 else c

-- `strip_suffix`
unfoldable pub strip_suffix : Bytes → Bytes → Option Bytes
unfolding ends_with
strip_suffix suffix s =
    if ends_with suffix s then some (take (length s - length suffix) s) else none

-- `split(pattern)`, with the piece so far, and the bytes of a pattern just found that are to skip.
unfoldable pub split_from : ℕ → Bytes → Bytes → Bytes → List Bytes
split_from skip piece pattern_ [] = piece ∷ []
split_from (suc k) piece pattern_ (c ∷ s) = split_from k piece pattern_ s
split_from zero piece pattern_ (c ∷ s) = elim (starts_with pattern_ (c ∷ s)) [
  | true ↦ piece ∷ split_from (length pattern_ - 1) [] pattern_ s
  | false ↦ split_from zero (piece ++ c ∷ []) pattern_ s
]

unfoldable pub split : Bytes → Bytes → List Bytes
unfolding split_from
split pattern_ s = split_from 0 [] pattern_ s

unfoldable pub is_ascii_whitespace : ℕ → Bool
is_ascii_whitespace c = c == b' ' || c == b'\t' || c == b'\n' || c == 0x0C || c == b'\r'

-- A piece between white space, unless it is empty.
abbrev pub word_before : Bytes → List Bytes → List Bytes
word_before [] ws = ws
word_before (c ∷ s) ws = (c ∷ s) ∷ ws

-- `split_ascii_whitespace`, with the word so far.
unfoldable pub words_from : Bytes → Bytes → List Bytes
words_from word [] = word_before word []
words_from word (c ∷ s) = elim (is_ascii_whitespace c) [
  | true ↦ word_before word (words_from [] s)
  | false ↦ words_from (word ++ c ∷ []) s
]

unfoldable pub split_ascii_whitespace : Bytes → List Bytes
unfolding words_from
split_ascii_whitespace s = words_from [] s

-- `next` of an iterator, and `last`.
abbrev pub first_piece : List Bytes → Option Bytes
first_piece [] = none
first_piece (p ∷ ps) = some p

abbrev pub last_piece : List Bytes → Option Bytes
last_piece [] = none
last_piece (p ∷ []) = some p
last_piece (p ∷ q ∷ ps) = last_piece (q ∷ ps)
