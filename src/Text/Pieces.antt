-- ===== src/Text/Pieces.antt =====
-- The pieces that `split` and `split_ascii_whitespace` cut a text into, and the digits of numbers.
use ocdscope.Prelude.{
  ℕ, zero, suc, ◌+◌, ◌/◌, ◌%◌, ◌≤◌, ◌≡◌, ◌≢◌, refl, sym, ap, ◌∙◌, true, false, List, [], ◌∷◌, ◌++◌,
  append_assoc, append-nil, arith, ◌==◌, All, Lacks,
}
use ocdscope.Text.Defs.{
  Bytes, codes, starts_with, split_from, words_from, word_before, is_ascii_whitespace, format_uint,
  decimal,
}

abbrev pub IsDigit : ℕ → Type 0
IsDigit b = (b'0' ≤ b) × (b ≤ b'9')

decimal-All : (f n : ℕ) (out : Bytes) → All IsDigit out → All IsDigit (decimal f n out)
unfolding decimal
decimal-All zero n out h = h
decimal-All (suc f) n out h =
    let digit : IsDigit (b'0' + n % 10) = (omega arith, omega arith) in
    ground (arith, decimal-All f (n / 10) ((b'0' + n % 10) ∷ out) (digit, h))

pub format_uint-All : (n : ℕ) → All IsDigit (format_uint n)
unfolding format_uint
format_uint-All n = decimal-All 20 n [] tt

pub All-mono : {P Q : ℕ → Type 0} (s : Bytes) → ((b : ℕ) → P b → Q b) → All P s → All Q s
All-mono [] f h = tt
All-mono (c ∷ s) f (hc, h) = (f c hc, All-mono s f h)

-- No white space.
abbrev pub Word : Bytes → Type 0
Word = All (λ b. is_ascii_whitespace b ≡ false)

digit-word : (b : ℕ) → IsDigit b → is_ascii_whitespace b ≡ false
unfolding is_ascii_whitespace
digit-word b (low, high) = ground arith

pub format_uint-Word : (n : ℕ) → Word (format_uint n)
format_uint-Word n = All-mono (format_uint n) digit-word (format_uint-All n)

pub format_uint-Lacks : (n : ℕ) → Lacks b':' (format_uint n)
format_uint-Lacks n = All-mono (format_uint n) (λ b (low, high) e. omega arith) (format_uint-All n)

-- A text without a colon is one piece.
pub split_from-Lacks :
    (piece s : Bytes) → Lacks b':' s → split_from 0 piece (codes ": ") s ≡ (piece ++ s) ∷ []
unfolding split_from starts_with
split_from-Lacks piece [] h = ap (λ p. p ∷ []) (sym (append-nil piece))
split_from-Lacks piece (c ∷ s) (hc, h) =
    let other : (b':' == c) ≡ false = ground arith in
    rw (split_from, other)
      (split_from-Lacks (piece ++ c ∷ []) s h ∙ ap (λ p. p ∷ []) (append_assoc piece (c ∷ []) s))

pub split_from-append :
    (piece s t : Bytes)
    → Lacks b':' s
    → split_from 0 piece (codes ": ") (s ++ b':' ∷ b' ' ∷ t)
      ≡ (piece ++ s) ∷ split_from 0 [] (codes ": ") t
unfolding split_from starts_with
split_from-append piece [] t h =
    ap (λ p. p ∷ split_from 0 [] (codes ": ") t) (sym (append-nil piece))
split_from-append piece (c ∷ s) t (hc, h) =
    let other : (b':' == c) ≡ false = ground arith in
    rw (split_from, other)
      (split_from-append (piece ++ c ∷ []) s t h
        ∙ ap (λ p. p ∷ split_from 0 [] (codes ": ") t) (append_assoc piece (c ∷ []) s))

-- A word up to white space.
words_from-append :
    (word w s : Bytes) (b : ℕ)
    → Word w
    → is_ascii_whitespace b ≡ true
    → words_from word (w ++ b ∷ s) ≡ word_before (word ++ w) (words_from [] s)
unfolding words_from
words_from-append word [] s b h e =
    rw (words_from, e) (ap (λ x. word_before x (words_from [] s)) (sym (append-nil word)))
words_from-append word (c ∷ w) s b (hc, h) e =
    rw (words_from, hc)
      (words_from-append (word ++ c ∷ []) w s b h e
        ∙ ap (λ x. word_before x (words_from [] s)) (append_assoc word (c ∷ []) w))

word_before-ne-nil : (w : Bytes) (ws : List Bytes) → w ≢ [] → word_before w ws ≡ w ∷ ws
word_before-ne-nil [] ws h = absurd (h refl)
word_before-ne-nil (c ∷ w) ws h = refl

pub split_ascii_whitespace_first :
    (w s : Bytes) (b : ℕ)
    → Word w
    → w ≢ []
    → is_ascii_whitespace b ≡ true
    → words_from [] (w ++ b ∷ s) ≡ w ∷ words_from [] s
split_ascii_whitespace_first w s b h some_ e =
    words_from-append [] w s b h e ∙ word_before-ne-nil w (words_from [] s) some_
