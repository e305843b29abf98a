-- ===== src/Text/Ascii.antt =====
-- ASCII text, and the digits that numbers are printed with.
use ocdscope.Prelude.{
  ℕ, zero, suc, ◌/◌, ◌%◌, ◌<◌, ◌≡◌, ◌≢◌, refl, Bool, true, ◌&&◌, some, [], ◌∷◌, arith, ltb, All,
  All-append,
}
use ocdscope.Text.Defs.{Bytes, utf8_scan, utf8_lead, is_utf8, from_utf8, hex_digit, format_hex}

abbrev pub Ascii : Bytes → Type 0
Ascii = All (λ b. b < 0x80)

abbrev pub all_ascii : Bytes → Bool
all_ascii [] = true
all_ascii (c ∷ s) = ltb c 0x80 && all_ascii s

-- A literal is ASCII by evaluation.
pub literal-Ascii : (s : Bytes) → all_ascii s ≡ true → Ascii s
literal-Ascii [] h = tt
literal-Ascii (c ∷ s) h = ground (arith, literal-Ascii s)

utf8_scan-Ascii : (s : Bytes) (lo hi : ℕ) → Ascii s → utf8_scan 0 lo hi s ≡ true
unfolding utf8_scan utf8_lead
utf8_scan-Ascii [] lo hi h = refl
utf8_scan-Ascii (c ∷ s) lo hi (hc, h) =
    let ascii : ltb c 0x80 ≡ true = ground arith in
    rw (utf8_scan, ascii) (utf8_scan-Ascii s 0x80 0xBF h)

pub from_utf8-Ascii : (s : Bytes) → Ascii s → from_utf8 s ≡ some s
unfolding from_utf8 is_utf8
from_utf8-Ascii s h = rw (utf8_scan-Ascii s 0x80 0xBF h) refl

-- A byte of a hexadecimal number is ASCII and no blank.
abbrev pub IsHex : ℕ → Type 0
IsHex b = (b < 0x80) × (b ≢ b' ') × (b ≢ b'#')

pub hex_digit-IsHex : (d : ℕ) → d < 16 → IsHex (hex_digit d)
unfolding hex_digit
hex_digit-IsHex d h = ground arith

pub format_hex-All : (w n : ℕ) → All IsHex (format_hex w n)
unfolding format_hex
format_hex-All zero n = tt
format_hex-All (suc w) n =
    All-append IsHex (format_hex w (n / 16)) _ (format_hex-All w (n / 16))
      (hex_digit-IsHex (n % 16) (omega arith), tt)
