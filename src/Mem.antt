-- ===== src/Mem.antt =====
-- The memory sampler, src/sampler/memsampler.rs: what it asks the GDB server for, and what it makes
-- of a response while it samples.
mod Handle
pub mod Laws
pub mod Rounds
pub mod Sampler
pub mod Sampling
pub mod Served
pub mod Session
pub mod Startup
mod Stopping
pub mod Symbols
mod Tests
use ocdscope.Prelude.{ℕ, ◌+◌, ◌*◌, ◌/◌, ◌%◌, Option, none, some, ◌++◌, if◌then◌else◌}
use ocdscope.Text.{Bytes, codes, same, from_utf8, from_str_radix, format_hex, max_u32}
use ocdscope.Float.{Floats}
use ocdscope.Gdb.Remote.{Response, ack, packet}

-- The command that reads a word of memory.
unfoldable pub read_request : ℕ → Bytes
read_request memory_address = codes "m " ++ format_hex 8 memory_address ++ codes ",4"

unfoldable pub parse_hex_value : Bytes → Option ℕ
parse_hex_value data_ = elim (from_utf8 data_) [
  | none ↦ none
  | some data_string ↦ from_str_radix max_u32 16 data_string
]

-- `u32::from_le_bytes(value.to_be_bytes())`, the bit pattern of the sampled `f32`.
unfoldable pub swap_bytes : ℕ → ℕ
swap_bytes value =
    value / 0x100_0000 % 256
    + 0x100 * (value / 0x1_0000 % 256)
    + 0x1_0000 * (value / 0x100 % 256)
    + 0x100_0000 * (value % 256)

-- What the loop over the responses does next: it waits on, or has its value. An unexpected response
-- is logged, and the loop waits on too.
pub data Reply (fl : Floats) : Type 0 where
  keep_alive : Reply fl
  sampled : fl.F64 → Reply fl
  unexpected : Reply fl

module _ (fl : Floats) where
  unfoldable pub on_value : Option ℕ → Reply fl
  unfolding swap_bytes
  on_value none = unexpected
  on_value (some value) = sampled (fl.widen (fl.bits_f32 (swap_bytes value)))

  unfoldable pub on_response : Response → Reply fl
  unfolding on_value parse_hex_value
  on_response ack = unexpected
  on_response (packet data_) =
      if same data_ (codes "O") then keep_alive else on_value (parse_hex_value data_)
