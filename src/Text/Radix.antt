-- ===== src/Text/Radix.antt =====
-- Numbers that are printed, `{:02x}`, `{:08x}` and `{}`, against `from_str_radix`.
use native.Mathlib.Nat.{pow-suc}
use mathlib.Core.List.{cons-ne-nil, concat-ne-nil}
use ocdscope.Prelude.{
  ℕ, zero, suc, ◌+◌, ◌*◌, ◌/◌, ◌%◌, ◌^◌, ◌≤◌, ◌<◌, ◌≡◌, ◌≢◌, refl, ap, ◌∙◌, some, [], ◌∷◌, ◌++◌,
  arith, ◌==◌, Option-cases, Bool-cases, inl, inr,
}
use ocdscope.Text.Defs.{
  Bytes, to_digit, radix_digits, from_str_radix, hex_digit, format_hex, decimal, format_uint,
}

-- A printed digit is read back as its value.
pub to_digit-hex_digit : (d : ℕ) → d < 16 → to_digit 16 (hex_digit d) ≡ some d
unfolding to_digit hex_digit
to_digit-hex_digit d h = ground arith

pub to_digit_decimal : (d : ℕ) → d < 10 → to_digit 10 (b'0' + d) ≡ some d
unfolding to_digit
to_digit_decimal d h = ground arith

pub radix_digits-append :
    (max radix acc : ℕ) (s t : Bytes) {n : ℕ}
    → radix_digits max radix acc s ≡ some n
    → radix_digits max radix acc (s ++ t) ≡ radix_digits max radix n t
unfolding radix_digits
radix_digits-append max radix acc [] t h = ground arith
radix_digits-append max radix acc (c ∷ s) t {n} h = elim (Option-cases (to_digit radix c)) [
  | inl e ↦ ground arith
  | inr (d, e) ↦ ground (arith, radix_digits-append max radix (acc * radix + d) s t {n = n})
]

radix_digits_last :
    (max radix n d : ℕ) (c : ℕ)
    → to_digit radix c ≡ some d
    → n * radix + d ≤ max
    → radix_digits max radix n (c ∷ []) ≡ some (n * radix + d)
unfolding radix_digits
radix_digits_last max radix n d c e h = ground arith

pub radix_digits-format_hex :
    (w n max : ℕ) → n < 16 ^ w → n ≤ max → radix_digits max 16 0 (format_hex w n) ≡ some n
unfolding format_hex radix_digits
radix_digits-format_hex zero n max h k = ap some (omega arith)
radix_digits-format_hex (suc w) n max h k =
    radix_digits-append max 16 0 (format_hex w (n / 16)) _
      (radix_digits-format_hex w (n / 16) max (omega (arith, pow-suc 16 w)) (omega arith))
    ∙ radix_digits_last max 16 (n / 16) (n % 16) _ (to_digit-hex_digit (n % 16) (omega arith))
        (omega arith)
    ∙ ap some (omega arith)

radix_digits_step :
    (max n d : ℕ) (out : Bytes)
    → d < 10
    → n * 10 + d ≤ max
    → radix_digits max 10 n ((b'0' + d) ∷ out) ≡ radix_digits max 10 (n * 10 + d) out
unfolding radix_digits
radix_digits_step max n d out h k = ground (arith, to_digit_decimal d h)

pub radix_digits-decimal :
    (f n max : ℕ) (out : Bytes)
    → n < 10 ^ f
    → n ≤ max
    → radix_digits max 10 0 (decimal f n out) ≡ radix_digits max 10 n out
unfolding decimal
radix_digits-decimal zero n max out h k = let e : n ≡ 0 = omega arith in rw e
radix_digits-decimal (suc f) n max out h k = elim (Bool-cases (n / 10 == 0)) [
  | inl small ↦ rw small (
      radix_digits_step max 0 (n % 10) out (omega arith) (omega arith)
      ∙ ap (λ m. radix_digits max 10 m out) (ground arith))
  | inr more ↦ rw more (
      radix_digits-decimal f (n / 10) max _ (omega (arith, pow-suc 10 f)) (omega arith)
      ∙ radix_digits_step max (n / 10) (n % 10) out (omega arith) (omega arith)
      ∙ ap (λ m. radix_digits max 10 m out) (omega arith))
]

-- Digits that are read need no sign in front of them.
pub from_str_radix-radix_digits :
    (max radix : ℕ) (s : Bytes) {n : ℕ}
    → s ≢ []
    → radix_digits max radix 0 s ≡ some n
    → from_str_radix max radix s ≡ some n
unfolding from_str_radix radix_digits to_digit
from_str_radix-radix_digits max radix [] h e = absurd (h refl)
from_str_radix-radix_digits max radix (c ∷ []) h e = e
from_str_radix-radix_digits max radix (c ∷ d ∷ s) h e = ground arith

decimal-ne-nil : (f n : ℕ) (out : Bytes) → out ≢ [] → decimal f n out ≢ []
unfolding decimal
decimal-ne-nil zero n out h = h
decimal-ne-nil (suc f) n out h =
    ground (arith, decimal-ne-nil f (n / 10) ((b'0' + n % 10) ∷ out) (cons-ne-nil _ out))

pub format_uint-ne-nil : (n : ℕ) → format_uint n ≢ []
unfolding format_uint decimal
format_uint-ne-nil n =
    ground (arith, decimal-ne-nil 19 (n / 10) ((b'0' + n % 10) ∷ []) (cons-ne-nil _ []))

-- A number that is printed in decimal is read back.
pub from_str_radix-format_uint :
    (n max : ℕ) → n < 10 ^ 20 → n ≤ max → from_str_radix max 10 (format_uint n) ≡ some n
from_str_radix-format_uint n max h k =
    from_str_radix-radix_digits max 10 (format_uint n) (format_uint-ne-nil n)
      (unfold format_uint radix_digits in radix_digits-decimal 20 n max [] h k)

format_hex-ne-nil : (w n : ℕ) → format_hex (suc w) n ≢ []
unfolding format_hex
format_hex-ne-nil w n = concat-ne-nil (hex_digit (n % 16)) (format_hex w (n / 16))

-- A number that is printed in hexadecimal is read back.
pub from_str_radix-format_hex :
    (w n max : ℕ) → n < 16 ^ suc w → n ≤ max → from_str_radix max 16 (format_hex (suc w) n) ≡ some n
from_str_radix-format_hex w n max h k =
    from_str_radix-radix_digits max 16 (format_hex (suc w) n) (format_hex-ne-nil w n)
      (radix_digits-format_hex (suc w) n max h k)
