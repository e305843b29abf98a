-- ===== src/Mem/Laws.antt =====
-- The words of memory that responses give: `parse_hex_value` and the conversion of its value, of
-- src/sampler/memsampler.rs.
use ocdscope.Prelude.{
  ℕ, ◌+◌, ◌*◌, ◌/◌, ◌%◌, ◌<◌, ◌≤◌, ◌≡◌, refl, ap, ◌∙◌, false, some, [], ◌∷◌, ◌++◌, arith,
}
use ocdscope.Text.{Bytes, codes, same, format_hex, max_u32}
use ocdscope.Text.Ascii.{Ascii, from_utf8-Ascii, IsHex, format_hex-All}
use ocdscope.Text.Radix.{from_str_radix-format_hex}
use ocdscope.Float.{Floats}
use ocdscope.Text.Pieces.{All-mono}
use ocdscope.Gdb.Remote.{packet}
use ocdscope.Mem.{parse_hex_value, swap_bytes, sampled, on_value, on_response}

-- The contents of the response of a GDB server: two hexadecimal digits for each byte of memory, in
-- the order of the addresses.
unfoldable pub hex_of : Bytes → Bytes
hex_of [] = []
hex_of (b ∷ bs) = format_hex 2 b ++ hex_of bs

-- The number that four bytes are, the first one lowest, and the first one highest.
abbrev pub little_endian : ℕ → ℕ → ℕ → ℕ → ℕ
little_endian a b c d = a + 0x100 * b + 0x1_0000 * c + 0x100_0000 * d

hex_of-format_hex :
    (a b c d : ℕ)
    → a < 256
    → b < 256
    → c < 256
    → d < 256
    → hex_of (a ∷ b ∷ c ∷ d ∷ []) ≡ format_hex 8 (little_endian d c b a)
unfolding hex_of format_hex
hex_of-format_hex a b c d ha hb hc hd =
    let n = little_endian d c b a in
    let d0 : n % 16 ≡ d % 16 = omega arith in
    let d1 : n / 16 % 16 ≡ d / 16 % 16 = omega arith in
    let d2 : n / 16 / 16 % 16 ≡ c % 16 = omega arith in
    let d3 : n / 16 / 16 / 16 % 16 ≡ c / 16 % 16 = omega arith in
    let d4 : n / 16 / 16 / 16 / 16 % 16 ≡ b % 16 = omega arith in
    let d5 : n / 16 / 16 / 16 / 16 / 16 % 16 ≡ b / 16 % 16 = omega arith in
    let d6 : n / 16 / 16 / 16 / 16 / 16 / 16 % 16 ≡ a % 16 = omega arith in
    let d7 : n / 16 / 16 / 16 / 16 / 16 / 16 / 16 % 16 ≡ a / 16 % 16 = omega arith in
    rw (d0, d1, d2, d3, d4, d5, d6, d7) refl

swap_bytes-little_endian :
    (a b c d : ℕ)
    → a < 256
    → b < 256
    → c < 256
    → d < 256
    → swap_bytes (little_endian d c b a) ≡ little_endian a b c d
unfolding swap_bytes
swap_bytes-little_endian a b c d ha hb hc hd = omega arith

parse_hex_value-format_hex : (n : ℕ) → n ≤ max_u32 → parse_hex_value (format_hex 8 n) ≡ some n
unfolding parse_hex_value
parse_hex_value-format_hex n h =
    let ascii : Ascii (format_hex 8 n) =
      All-mono {P = IsHex} (format_hex 8 n) (λ b (low, _, _). low) (format_hex-All 8 n) in
    rw (parse_hex_value, from_utf8-Ascii (format_hex 8 n) ascii)
      (from_str_radix-format_hex 7 n max_u32 (omega arith) h)

not_alive : (n : ℕ) → same (format_hex 8 n) (codes "O") ≡ false
unfolding same format_hex
not_alive n = ground arith

-- A response that gives four bytes of memory (numbers below 256) in hexadecimal, in the order of
-- their addresses, is sampled as the `f32` whose bit pattern is the little-endian word of these
-- bytes.
pub on_response-hex_of :
    (fl : Floats) (a b c d : ℕ)
    → a < 256
    → b < 256
    → c < 256
    → d < 256
    → on_response fl (packet (hex_of (a ∷ b ∷ c ∷ d ∷ [])))
      ≡ sampled (fl.widen (fl.bits_f32 (little_endian a b c d)))
unfolding on_response on_value
on_response-hex_of fl a b c d ha hb hc hd =
    let n = little_endian d c b a in
    ap (λ s. on_response fl (packet s)) (hex_of-format_hex a b c d ha hb hc hd)
    ∙ rw
        (
          not_alive n,
          parse_hex_value-format_hex n (omega arith),
          swap_bytes-little_endian a b c d ha hb hc hd,
        )
        refl
