-- ===== src/Telnet/Channels/Laws.antt =====
-- The listing that OpenOCD prints, and `parse_rtt_channels` of src/openocd/telnet_interface.rs.
use ocdscope.Prelude.{
  ℕ, ◌≤◌, ◌<◌, ◌≡◌, ◌≢◌, refl, sym, ap, ◌∙◌, false, none, some, List, [], ◌∷◌, ◌++◌, map,
  append_assoc, append-nil, arith, All, All-append, Lacks,
}
use ocdscope.Text.{
  Bytes, codes, starts_with, split, split_from, split_ascii_whitespace, words_from,
  is_ascii_whitespace, format_uint, max_u32, from_str_radix, radix_digits, to_digit,
}
use ocdscope.Text.Pieces.{
  IsDigit, format_uint-All, format_uint-Word, format_uint-Lacks, split_from-Lacks,
  split_from-append, split_ascii_whitespace_first,
}
use ocdscope.Text.Radix.{from_str_radix-format_uint, format_uint-ne-nil}
use ocdscope.Telnet.Channels.{
  RttChannelDirection, up, down, RttChannel, LineMeaning, list_direction, describe_channel,
  parse_channel, parse_line, Found, add_meaning, add_lines, parse_rtt_channels,
}

-- A channel whose name is one word without a colon.
pub record IsListed (c : RttChannel) : Type 0 where
  pub named : c.name ≢ []
  pub word : All (λ b. is_ascii_whitespace b ≡ false) c.name
  pub no_colon : Lacks b':' c.name
  pub id_fits : c.id ≤ max_u32
  pub size_fits : c.buffer_size ≤ max_u32
  pub flags_fit : c.flags ≤ max_u32

-- The part of a line behind the channel's number.
pub description : RttChannel → Bytes
description c =
    c.name ++ b' ' ∷ (format_uint c.buffer_size ++ b' ' ∷ (format_uint c.flags ++ codes "\r\n"))

-- The line that describes a channel.
pub channel_line : RttChannel → Bytes
channel_line c = format_uint c.id ++ b':' ∷ b' ' ∷ description c

end_of_line : words_from [] (10 ∷ []) ≡ []
unfolding words_from is_ascii_whitespace
end_of_line = refl

split_ascii_whitespace-description :
    (c : RttChannel)
    → IsListed c
    → split_ascii_whitespace (description c)
      ≡ c.name ∷ format_uint c.buffer_size ∷ format_uint c.flags ∷ []
unfolding split_ascii_whitespace description is_ascii_whitespace
split_ascii_whitespace-description c h =
    split_ascii_whitespace_first c.name _ b' ' h.word h.named refl
    ∙ ap (λ ws. c.name ∷ ws)
        (split_ascii_whitespace_first (format_uint c.buffer_size) _ b' '
            (format_uint-Word c.buffer_size) (format_uint-ne-nil c.buffer_size) refl
          ∙ ap (λ ws. format_uint c.buffer_size ∷ ws)
              (split_ascii_whitespace_first (format_uint c.flags) (10 ∷ []) 13
                  (format_uint-Word c.flags) (format_uint-ne-nil c.flags) refl
                ∙ ap (λ ws. format_uint c.flags ∷ ws) end_of_line))

description-Lacks : (c : RttChannel) → IsListed c → Lacks b':' (description c)
unfolding description
description-Lacks c h =
    All-append (λ b. b ≢ b':') c.name _ h.no_colon
      (
        λ e. omega arith,
        All-append (λ b. b ≢ b':') (format_uint c.buffer_size) _ (format_uint-Lacks c.buffer_size)
            (
              λ e. omega arith,
              All-append (λ b. b ≢ b':') (format_uint c.flags) _ (format_uint-Lacks c.flags)
                  (λ e. omega arith, (λ e. omega arith, tt)),
            ),
      )

split-channel_line :
    (c : RttChannel)
    → IsListed c
    → split (codes ": ") (channel_line c) ≡ format_uint c.id ∷ description c ∷ []
unfolding split channel_line
split-channel_line c h =
    split_from-append [] (format_uint c.id) (description c) (format_uint-Lacks c.id)
    ∙ ap (λ ps. format_uint c.id ∷ ps) (split_from-Lacks [] (description c) (description-Lacks c h))

parse_channel-channel_line :
    (c : RttChannel)
    → IsListed c
    → parse_channel (channel_line c) ≡ some (describe_channel c.id c.name c.buffer_size c.flags)
unfolding parse_channel
parse_channel-channel_line c h = rw (
  split-channel_line c h,
  from_str_radix-format_uint c.id max_u32 (omega (arith, h.id_fits)) h.id_fits,
  split_ascii_whitespace-description c h,
  from_str_radix-format_uint c.buffer_size max_u32 (omega (arith, h.size_fits)) h.size_fits,
  from_str_radix-format_uint c.flags max_u32 (omega (arith, h.flags_fit)) h.flags_fit,
)

starts_with_digit :
    (letter : ℕ) (p s t : Bytes)
    → b'9' < letter
    → s ≢ []
    → All IsDigit s
    → starts_with (letter ∷ p) (s ++ t) ≡ false
unfolding starts_with
starts_with_digit letter p [] t h some_ digits = absurd (some_ refl)
starts_with_digit letter p (c ∷ s) t h some_ ((low, high), _) = ground arith

parse_line-channel_line :
    (c : RttChannel)
    → IsListed c
    → parse_line (channel_line c) ≡ some (describe_channel c.id c.name c.buffer_size c.flags)
unfolding parse_line
parse_line-channel_line c h =
    let no_letter : (letter : ℕ) (p : Bytes)
        → b'9' < letter
        → starts_with (letter ∷ p) (channel_line c) ≡ false =
      λ letter p less.
        unfold channel_line in
        starts_with_digit letter p (format_uint c.id) _ less (format_uint-ne-nil c.id)
          (format_uint-All c.id) in
    rw (no_letter b'U' _ (omega arith), no_letter b'D' _ (omega arith))
      (parse_channel-channel_line c h)

abbrev pub Lists : RttChannelDirection → List RttChannel → Type 0
Lists d = All (λ (c : RttChannel). IsListed c × (c.direction ≡ d))

add_lines-channel_line :
    (d : RttChannelDirection) (cs found : List RttChannel) (lines : List Bytes)
    → Lists d cs
    → add_lines (found, some d) (map channel_line cs ++ lines)
      ≡ add_lines (found ++ cs, some d) lines
unfolding add_lines add_meaning
add_lines-channel_line d [] found lines h =
    ap (λ cs. add_lines (cs, some d) lines) (sym (append-nil found))
add_lines-channel_line d (c ∷ cs) found lines ((listed, is), h) =
    rw (add_lines, parse_line-channel_line c listed)
      (ap
          (λ e.
            add_lines (found ++ record c { direction = e } ∷ [], some d)
              (map channel_line cs ++ lines))
          (sym is)
        ∙ add_lines-channel_line d cs (found ++ c ∷ []) lines h
        ∙ ap (λ cs. add_lines (cs, some d) lines) (append_assoc found (c ∷ []) cs))

add_lines_step :
    (found : Found) (line : Bytes) (lines : List Bytes) {m : LineMeaning}
    → parse_line line ≡ some m
    → add_lines found (line ∷ lines) ≡ add_lines (add_meaning found m) lines
unfolding add_lines
add_lines_step found line lines e = rw (add_lines, e) refl

add_lines_skip :
    (found : Found) (line : Bytes) (lines : List Bytes)
    → parse_line line ≡ none
    → add_lines found (line ∷ lines) ≡ add_lines found lines
unfolding add_lines
add_lines_skip found line lines e = rw (add_lines, e) refl

parse_line_title : (counts : Bytes) → parse_line (codes "Channels: " ++ counts) ≡ none
unfolding parse_line parse_channel split split_from starts_with from_str_radix radix_digits to_digit
parse_line_title counts = refl

parse_line_up : parse_line (codes "Up-channels:\r\n") ≡ some (list_direction up)
unfolding parse_line starts_with
parse_line_up = refl

parse_line_down : parse_line (codes "Down-channels:\r\n") ≡ some (list_direction down)
unfolding parse_line starts_with
parse_line_down = refl

-- The answer to `rtt channels`, with any text behind `Channels: ` in its first line.
pub listing : Bytes → List RttChannel → List RttChannel → List Bytes
listing counts ups downs =
    (codes "Channels: " ++ counts)
    ∷ codes "Up-channels:\r\n"
    ∷ (map channel_line ups ++ codes "Down-channels:\r\n" ∷ map channel_line downs)

-- The channels of a listing are read back, with their directions and in order, where each name is
-- one word without a colon and the numbers have 32 bits.
pub parse_rtt_channels-listing :
    (counts : Bytes) (ups downs : List RttChannel)
    → Lists up ups
    → Lists down downs
    → parse_rtt_channels (listing counts ups downs) ≡ ups ++ downs
unfolding parse_rtt_channels listing add_meaning add_lines
parse_rtt_channels-listing counts ups downs hu hd =
    let behind = codes "Down-channels:\r\n" ∷ map channel_line downs in
    let end : map channel_line downs ++ [] ≡ map channel_line downs =
      append-nil (map channel_line downs) in
    ap (λ (f : Found). f.0)
      (add_lines_skip ([], none) (codes "Channels: " ++ counts)
          (codes "Up-channels:\r\n" ∷ (map channel_line ups ++ behind)) (parse_line_title counts)
        ∙ add_lines_step ([], none) _ (map channel_line ups ++ behind) parse_line_up
        ∙ add_lines-channel_line up ups [] behind hu
        ∙ add_lines_step (ups, some up) _ (map channel_line downs) parse_line_down
        ∙ ap (add_lines (ups, some down)) (sym end)
        ∙ add_lines-channel_line down downs ups [] hd)
