-- ===== src/Telnet/Channels.antt =====
-- The list of RTT channels that OpenOCD prints: `parse_rtt_channels` of
-- src/openocd/telnet_interface.rs.
pub mod Laws
use ocdscope.Prelude.{ℕ, Bool, true, false, Option, none, some, List, [], ◌∷◌, ◌++◌, if◌then◌else◌}
use ocdscope.Text.{
  Bytes, codes, starts_with, split, split_ascii_whitespace, from_str_radix, max_u32,
}

pub data RttChannelDirection : Type 0 where
  up down : RttChannelDirection

pub record RttChannel : Type 0 where
  pub id : ℕ
  pub name : Bytes
  pub buffer_size : ℕ
  pub flags : ℕ
  pub direction : RttChannelDirection

pub data LineMeaning : Type 0 where
  list_direction : RttChannelDirection → LineMeaning
  describe_channel : ℕ → Bytes → ℕ → ℕ → LineMeaning

infixl 5 ◌>>=◌
abbrev pub ◌>>=◌ {ℓ κ} : {A : Type ℓ} {B : Type κ} → Option A → (A → Option B) → Option B
none >>= f = none
some a >>= f = f a

-- `next` of an iterator, and what is left of it.
abbrev pub next : List Bytes → Option (Bytes × List Bytes)
next [] = none
next (w ∷ ws) = some (w, ws)

unfoldable pub parse_channel : Bytes → Option LineMeaning
parse_channel line = do
  (id_str, tokens) ← next (split (codes ": ") line)
  id ← from_str_radix max_u32 10 id_str
  (description_str, _) ← next tokens
  (name, sizes) ← next (split_ascii_whitespace description_str)
  (size_str, last) ← next sizes
  size ← from_str_radix max_u32 10 size_str
  (flags_str, _) ← next last
  flags ← from_str_radix max_u32 10 flags_str
  some (describe_channel id name size flags)

unfoldable pub parse_line : Bytes → Option LineMeaning
unfolding parse_channel
parse_line line =
    if starts_with (codes "Up-channels:") line
    then some (list_direction up)
    else if starts_with (codes "Down-channels:") line
    then some (list_direction down)
    else parse_channel line

abbrev pub Found : Type 0
Found = List RttChannel × Option RttChannelDirection

-- The function of the fold. A channel before any direction is dropped.
unfoldable pub add_meaning : Found → LineMeaning → Found
add_meaning (channels, current) (list_direction d) = (channels, some d)
add_meaning (channels, none) (describe_channel id name size flags) = (channels, none)
add_meaning (channels, some d) (describe_channel id name size flags) = (
  channels
      ++ record { id = id; name = name; buffer_size = size; flags = flags; direction = d } ∷ [],
  some d,
)

-- `filter_map` and `fold` in one pass.
unfoldable pub add_lines : Found → List Bytes → Found
unfolding parse_line add_meaning
add_lines found [] = found
add_lines found (line ∷ lines) = elim (parse_line line) [
  | none ↦ add_lines found lines
  | some m ↦ add_lines (add_meaning found m) lines
]

unfoldable pub parse_rtt_channels : List Bytes → List RttChannel
unfolding add_lines
parse_rtt_channels lines = (add_lines ([], none) lines).0
