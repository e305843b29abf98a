-- ===== src/Telnet/Answers.antt =====
-- The lines that `rtt_start` and `set_adapter_speed` of src/openocd/telnet_interface.rs take a number
-- from.
use ocdscope.Prelude.{
  ℕ, suc, ◌-◌, ◌^◌, ◌≤◌, ◌<◌, ◌≡◌, ◌≢◌, refl, sym, ap, ◌∙◌, true, false, some, [], ◌∷◌, ◌++◌,
  append_assoc, append-nil, arith, ◌==◌, length, length-append, take, take-length_append,
  All-append, Lacks,
}
use ocdscope.Text.{
  Bytes, codes, same, starts_with, ends_with, strip_suffix, split, split_from, first_piece,
  from_utf8, format_hex, format_uint, max_u32, max_usize,
}
use ocdscope.Text.Ascii.{Ascii, literal-Ascii, from_utf8-Ascii, format_hex-All}
use ocdscope.Text.Radix.{from_str_radix-format_hex, from_str_radix-format_uint}
use ocdscope.Text.Pieces.{All-mono, format_uint-All, format_uint-Lacks}
use ocdscope.Telnet.Commands.{block_address, line_speed}

same_refl : (s : Bytes) → same s s ≡ true
unfolding same
same_refl [] = refl
same_refl (c ∷ s) = ground (arith, same_refl s)

ends_with-append : (s suffix : Bytes) → ends_with suffix (s ++ suffix) ≡ true
unfolding ends_with
ends_with-append [] [] = same_refl []
ends_with-append [] (c ∷ t) = rw (ends_with, same_refl (c ∷ t)) refl
ends_with-append (c ∷ s) suffix = ground (arith, ends_with-append s suffix)

strip_suffix-append : (s suffix : Bytes) → strip_suffix suffix (s ++ suffix) ≡ some s
unfolding strip_suffix
strip_suffix-append s suffix =
    let front : length (s ++ suffix) - length suffix ≡ length s =
      omega (arith, length-append s suffix) in
    rw (ends_with-append s suffix)
      (ap some (ap (λ n. take n (s ++ suffix)) front ∙ take-length_append s suffix))

-- A text without the first byte of the pattern is one piece.
split_from-one :
    (p : ℕ) (ps piece s : Bytes) → Lacks p s → split_from 0 piece (p ∷ ps) s ≡ (piece ++ s) ∷ []
unfolding split_from starts_with
split_from-one p ps piece [] h = ap (λ x. x ∷ []) (sym (append-nil piece))
split_from-one p ps piece (c ∷ s) (hc, h) =
    let other : (p == c) ≡ false = ground arith in
    rw (split_from, other)
      (split_from-one p ps (piece ++ c ∷ []) s h ∙ ap (λ x. x ∷ []) (append_assoc piece (c ∷ []) s))

-- The line that announces a control block, as OpenOCD prints an address.
pub found_line : Bytes → Bytes
found_line digits = (codes "rtt: Control block found at 0x" ++ digits) ++ codes "\r\n"

found_line-Ascii : (digits : Bytes) → Ascii digits → Ascii (found_line digits)
unfolding found_line
found_line-Ascii digits h =
    All-append (λ b. b < 0x80) (codes "rtt: Control block found at 0x" ++ digits) _
      (All-append (λ b. b < 0x80) (codes "rtt: Control block found at 0x") digits
        (literal-Ascii (codes "rtt: Control block found at 0x") refl) h)
      (literal-Ascii (codes "\r\n") refl)

split-found_line :
    (digits : Bytes)
    → split (codes " 0x") (codes "rtt: Control block found at 0x" ++ digits)
      ≡ codes "rtt: Control block found at" ∷ split_from 0 [] (codes " 0x") digits
unfolding split split_from starts_with
split-found_line digits = refl

-- The address of a control block, of 32 bits, is read back from the line that announces it in
-- lower-case hexadecimal digits, whatever their number.
pub block_address-found_line :
    (w n : ℕ)
    → n < 16 ^ suc w
    → n ≤ max_u32
    → block_address (found_line (format_hex (suc w) n)) ≡ some n
unfolding block_address
block_address-found_line w n h k =
    let digits = format_hex (suc w) n in
    let hex = format_hex-All (suc w) n in
    let text : from_utf8 (found_line digits) ≡ some (found_line digits) =
      from_utf8-Ascii (found_line digits)
        (found_line-Ascii digits (All-mono digits (λ b (low, _, _). low) hex)) in
    let open_line : strip_suffix (codes "\r\n") (found_line digits)
        ≡ some (codes "rtt: Control block found at 0x" ++ digits) =
      unfold found_line in
      strip_suffix-append (codes "rtt: Control block found at 0x" ++ digits) (codes "\r\n") in
    let pieces : split (codes " 0x") (codes "rtt: Control block found at 0x" ++ digits)
        ≡ codes "rtt: Control block found at" ∷ digits ∷ [] =
      split-found_line digits
      ∙ ap (λ ps. codes "rtt: Control block found at" ∷ ps)
          (split_from-one b' ' (codes "0x") [] digits
            (All-mono digits (λ b (_, other, _). other) hex)) in
    rw (text, open_line, pieces) (from_str_radix-format_hex w n max_u32 h k)

-- The line that tells the adapter's speed, as OpenOCD prints it.
pub speed_line : ℕ → Bytes
speed_line n = (codes "adapter speed: " ++ (format_uint n ++ codes " kHz")) ++ codes "\r\n"

-- The piece up to a byte.
first_piece-split_from :
    (p : ℕ) (piece s t : Bytes)
    → Lacks p s
    → first_piece (split_from 0 piece (p ∷ []) (s ++ p ∷ t)) ≡ some (piece ++ s)
unfolding split_from starts_with
first_piece-split_from p piece [] t h =
    let found : (p == p) ≡ true = ground arith in
    rw (split_from, found) (ap some (sym (append-nil piece)))
first_piece-split_from p piece (c ∷ s) t (hc, h) =
    let other : (p == c) ≡ false = ground arith in
    rw (split_from, other)
      (first_piece-split_from p (piece ++ c ∷ []) s t h ∙ ap some (append_assoc piece (c ∷ []) s))

split-speed_line :
    (s : Bytes)
    → split (codes ": ") (codes "adapter speed: " ++ s)
      ≡ codes "adapter speed" ∷ split_from 0 [] (codes ": ") s
unfolding split split_from starts_with
split-speed_line s = refl

-- An adapter speed of at most 64 bits is read back from the line that tells it.
pub line_speed-speed_line : (n : ℕ) → n ≤ max_usize → line_speed (speed_line n) ≡ some n
unfolding line_speed
line_speed-speed_line n h =
    let rest = format_uint n ++ codes " kHz" in
    let digits = format_uint-All n in
    let ascii : Ascii (speed_line n) =
      unfold speed_line in
      All-append (λ b. b < 0x80) (codes "adapter speed: " ++ rest) _
        (All-append (λ b. b < 0x80) (codes "adapter speed: ") rest
          (literal-Ascii (codes "adapter speed: ") refl)
          (All-append (λ b. b < 0x80) (format_uint n) _
            (All-mono (format_uint n) (λ b (low, high). omega arith) digits)
            (literal-Ascii (codes " kHz") refl)))
        (literal-Ascii (codes "\r\n") refl) in
    let open_line : strip_suffix (codes "\r\n") (speed_line n)
        ≡ some (codes "adapter speed: " ++ rest) =
      unfold speed_line in strip_suffix-append (codes "adapter speed: " ++ rest) (codes "\r\n") in
    let no_colon : Lacks b':' rest =
      All-append (λ b. b ≢ b':') (format_uint n) _ (format_uint-Lacks n)
        (λ e. omega arith, (λ e. omega arith, (λ e. omega arith, (λ e. omega arith, tt)))) in
    let pieces : split (codes ": ") (codes "adapter speed: " ++ rest)
        ≡ codes "adapter speed" ∷ rest ∷ [] =
      split-speed_line rest
      ∙ ap (λ ps. codes "adapter speed" ∷ ps) (split_from-one b':' (codes " ") [] rest no_colon) in
    let number : first_piece (split (codes " ") rest) ≡ some (format_uint n) =
      unfold split in
      first_piece-split_from b' ' [] (format_uint n) (codes "kHz")
        (All-mono (format_uint n) (λ b (low, high) e. omega arith) digits) in
    rw (from_utf8-Ascii (speed_line n) ascii, open_line, pieces, number)
      (from_str_radix-format_uint n max_usize (omega arith) h)
