-- ===== src/Gdb/Tests.antt =====
-- The theorems on the GDB client at concrete inputs.
use ocdscope.Prelude.{
  ℕ, ◌≡◌, ◌≢◌, refl, none, some, List, [], ◌∷◌, ◌++◌, true, arith, ok, panic, All, Lacks, position,
  slice,
}
use ocdscope.Text.{
  Bytes, codes, format_hex, hex_digit, from_utf8, from_str_radix, radix_digits, to_digit,
}
use ocdscope.Ttstream.{fallback, returned}
use ocdscope.Gdb.Packet.{build_gdb_packet, parse_gdb_packet, checksum, read_checksum}
use ocdscope.Gdb.PacketLaws.{
  parse-build_gdb_packet, parse_gdb_packet_sound, parse_gdb_packet-ne-panic,
}
use ocdscope.Gdb.Remote.{GdbRemote, packet, Poll, has_start, has_byte, read_response}
use ocdscope.Gdb.Stamps.{IsStamped, IsSafe, read_response-IsSafe}
use ocdscope.Gdb.Stream.{Arrives, encode, stream_of, Delivered, read_response-Delivered}
use ocdscope.Gdb.Limits.{stray, IsStuck, read_response_ends, read_response-IsStuck}

abbrev ok_text : Bytes
ok_text = codes "OK"

ok_text-Lacks : Lacks b'#' ok_text
ok_text-Lacks = (λ e. omega arith, (λ e. omega arith, tt))

abbrev client : Bytes → GdbRemote
client buffer = record {
  stream = record { timestamping_enabled = true };
  timeout_after = 100;
  data_buffer = buffer;
  last_rx_packet_timestamp = some (fallback 0);
}

abbrev poll : ℕ → Bytes → Poll
poll now bytes = record {
  now = now;
  reading = record { outcome = returned bytes; control = []; read_at = now };
}

-- `$OK#9a` and an ACK, cut into two TCP packets.
abbrev two_polls : List Poll
two_polls = poll 1 (codes "$O") ∷ poll 2 (codes "K#9a+") ∷ []

client-IsStamped : IsStamped (client [])
unfolding has_start has_byte
client-IsStamped e _ = absurd (cc)

two_polls-Arrives : All (Arrives 100) two_polls
two_polls-Arrives = (
  record { early = omega arith; some_bytes = λ e. cc; sane = tt },
  (record { early = omega arith; some_bytes = λ e. cc; sane = tt }, tt),
)

two_polls-encode : stream_of two_polls ≡ encode (packet ok_text) ++ codes "+"
unfolding encode build_gdb_packet checksum format_hex hex_digit
two_polls-encode = refl

read_response-Delivered_example :
    Delivered 100 (packet ok_text) (codes "+") (read_response 0 (client []) two_polls)
read_response-Delivered_example =
    read_response-Delivered 0 (client []) two_polls (packet ok_text) (codes "+") ok_text-Lacks
      client-IsStamped two_polls-Arrives two_polls-encode

read_response-IsSafe_example : IsSafe (read_response 0 (client []) two_polls)
read_response-IsSafe_example =
    read_response-IsSafe 0 (client []) two_polls client-IsStamped (tt, (tt, tt))

parse-build_gdb_packet_example :
    parse_gdb_packet (build_gdb_packet ok_text ++ codes "$") ≡ ok ok_text
parse-build_gdb_packet_example = parse-build_gdb_packet ok_text (codes "$") ok_text-Lacks

ok_parses : parse_gdb_packet (codes "$OK#9a+") ≡ ok ok_text
unfolding parse_gdb_packet read_checksum checksum from_utf8 from_str_radix radix_digits to_digit
    position slice
ok_parses = refl

parse_gdb_packet_sound_example :
    (h : ℕ) × (l : ℕ) × (rest : Bytes) × (codes "$OK#9a+" ≡ b'$' ∷ ok_text ++ b'#' ∷ h ∷ l ∷ rest)
    × Lacks b'#' ok_text
    × (read_checksum (h ∷ l ∷ []) ≡ ok (checksum ok_text))
parse_gdb_packet_sound_example = parse_gdb_packet_sound (codes "$OK#9a+") ok_parses

parse_gdb_packet-ne-panic_example : parse_gdb_packet (codes "$#zz") ≢ panic
parse_gdb_packet-ne-panic_example = parse_gdb_packet-ne-panic (codes "$#zz")

read_response_ends_example :
    (read_response 0 (client []) (two_polls ++ poll 101 [] ∷ [])).answer ≢ none
read_response_ends_example =
    read_response_ends 0 (client []) two_polls (poll 101 []) [] (omega arith)

read_response-IsStuck_example : IsStuck (read_response 0 (client (codes "x")) two_polls)
read_response-IsStuck_example =
    read_response-IsStuck 0 (client (codes "x")) two_polls
      (stray b'x' [] (codes "x") refl (λ e. omega arith) (λ e. omega arith))
