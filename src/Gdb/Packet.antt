-- ===== src/Gdb/Packet.antt =====
-- Building and parsing of GDB packets: `build_gdb_packet` and `parse_gdb_packet` of
-- src/gdbremote.rs. Bytes are numbers; a slice out of range is a panic.
use mathlib.Core.List.{foldl}
use ocdscope.Prelude.{
  ℕ, ◌+◌, ◌%◌, not, ◌∷◌, ◌++◌, ltb, ◌==◌, length, position, Outcome, ok, ◌>>=◌, ◌>>◌, refuse, ok_or,
  expect, slice, get_elem?,
}
use ocdscope.Ttstream.{IoError}
use ocdscope.Text.{Bytes, from_utf8, from_str_radix, format_hex, max_u8}

-- The texts of `GDBRemoteError::ParseError`.
pub data ParseMessage : Type 0 where
  packet_too_short missing_initial no_final too_short_for_checksum : ParseMessage
  checksum_not_utf8 checksum_not_hex : ParseMessage
  checksum_mismatch : ℕ → ℕ → ParseMessage

pub data GdbRemoteError : Type 0 where
  io_error : IoError → GdbRemoteError
  parse_error : ParseMessage → GdbRemoteError
  timeout end_of_stream : GdbRemoteError

abbrev pub Result {ℓ} : Type ℓ → Type ℓ
Result A = Outcome GdbRemoteError A

-- `iter().fold(0x00, |c, &b| c.wrapping_add(b))` on `u8`.
unfoldable pub checksum : Bytes → ℕ
checksum = foldl (λ c b. (c + b) % 256) 0

unfoldable pub build_gdb_packet : Bytes → Bytes
build_gdb_packet bytes = b'$' ∷ bytes ++ b'#' ∷ format_hex 2 (checksum bytes)

-- The two digits behind the `#`, as a number.
unfoldable pub read_checksum : Bytes → Result ℕ
read_checksum digits = do
  string ← ok_or (from_utf8 digits) (parse_error checksum_not_utf8)
  ok_or (from_str_radix max_u8 16 string) (parse_error checksum_not_hex)

unfoldable pub parse_gdb_packet : Bytes → Result Bytes
parse_gdb_packet bytes = do
  refuse (ltb (length bytes) 4) (parse_error packet_too_short)
  first ← expect (get_elem? bytes 0)
  refuse (not (first == b'$')) (parse_error missing_initial)
  pound_i ← ok_or (position (λ b. b == b'#') bytes) (parse_error no_final)
  refuse (ltb (length bytes) (pound_i + 3)) (parse_error too_short_for_checksum)
  contents ← slice 1 pound_i bytes
  digits ← slice (pound_i + 1) (pound_i + 3) bytes
  packet_checksum ← read_checksum digits
  refuse (not (checksum contents == packet_checksum))
      (parse_error (checksum_mismatch (checksum contents) packet_checksum))
  ok contents
