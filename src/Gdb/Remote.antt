-- ===== src/Gdb/Remote.antt =====
-- The client of src/gdbremote.rs: its buffer, and reading responses from a stream of TCP packets.
-- `Instant`s are nanoseconds. The environment of a read is a list of polls, one for each call of
-- `feed_buffer_from_stream`: the time at which it is made, and what the socket gives.
use ocdscope.Prelude.{
  ℕ, ◌+◌, ◌-◌, Bool, true, false, ◌||◌, Option, none, some, List, [], ◌∷◌, ◌++◌, ltb, ◌==◌,
  if◌then◌else◌, length, Outcome, ok, err, panic, ◌>>=◌, expect, slice_from,
}
use ocdscope.Text.{Bytes, same, from_utf8, codes}
use ocdscope.Ttstream.{
  IoError, would_block, timed_out, other, Timestamp, TimestampedTcpStream, Connecting, Reading,
  Sending, receive, send, set_read_timeout,
}
use ocdscope.Ttstream
use ocdscope.Gdb.Packet.{
  io_error, timeout, end_of_stream, Result, build_gdb_packet, parse_gdb_packet,
}

pub data Response : Type 0 where
  ack : Response
  packet : Bytes → Response

unfoldable pub is_ack : Response → Bool
is_ack ack = true
is_ack (packet d) = false

unfoldable pub is_packet : Response → Bool
is_packet ack = false
is_packet (packet d) = true

unfoldable pub is_packet_with : Bytes → Response → Bool
is_packet_with contents ack = false
is_packet_with contents (packet d) = same d contents

unfoldable pub to_string : Response → Option Bytes
to_string ack = some (codes "<ACK>")
to_string (packet d) = from_utf8 d

pub record GdbRemote : Type 0 where
  pub stream : TimestampedTcpStream
  pub timeout_after : ℕ
  pub data_buffer : Bytes
  pub last_rx_packet_timestamp : Option Timestamp

abbrev pub default_timeout : ℕ
default_timeout = 200_000_000

-- An `std::io::Error` becomes a `GDBRemoteError::IOError`.
abbrev pub lift {ℓ} : {A : Type ℓ} → Outcome IoError A → Result A
lift (ok a) = ok a
lift (err e) = err (io_error e)
lift panic = panic

unfoldable pub connect : Connecting → Result GdbRemote
connect c = do
  stream ← lift (Ttstream.connect c)
  ok (record {
    stream = stream;
    timeout_after = default_timeout;
    data_buffer = [];
    last_rx_packet_timestamp = none;
  })

unfoldable pub set_timeout : ℕ → GdbRemote → GdbRemote
set_timeout t g = record g { timeout_after = t }

unfoldable pub has_byte : ℕ → Bytes → Bool
has_byte b [] = false
has_byte b (c ∷ s) = c == b || has_byte b s

-- The start byte of a packet, or the byte of an ACK.
unfoldable pub has_start : Bytes → Bool
has_start s = has_byte b'$' s || has_byte b'+' s

pub record Poll : Type 0 where
  pub now : ℕ
  pub reading : Reading

-- What `feed_buffer_from_stream` does with the result of `receive`.
unfoldable pub absorb :
    GdbRemote → Outcome IoError (Bytes × Timestamp) → GdbRemote × Result (Unit {0})
absorb g (ok ([], timestamp)) = (g, err end_of_stream)
absorb g (ok (b ∷ received, timestamp)) = (
  record g {
    data_buffer = g.data_buffer ++ b ∷ received;
    last_rx_packet_timestamp =
        if has_start (b ∷ received) then some timestamp else g.last_rx_packet_timestamp;
  },
  ok tt,
)
absorb g (err would_block) = (g, err timeout)
absorb g (err timed_out) = (g, err timeout)
absorb g (err (other code)) = (g, err (io_error (other code)))
absorb g panic = (g, panic)

-- The result of arming the read timeout, and then of the read.
unfoldable pub after_arming :
    GdbRemote → Reading → Result (Unit {0}) → GdbRemote × Result (Unit {0})
unfolding absorb
after_arming g r (ok _) = absorb g (receive g.stream r)
after_arming g r (err e) = (g, err e)
after_arming g r panic = (g, panic)

unfoldable pub feed_buffer_from_stream : ℕ → GdbRemote → Poll → GdbRemote × Result (Unit {0})
unfolding after_arming
feed_buffer_from_stream timeout_at g p =
    if ltb timeout_at p.now
    then (g, err timeout)
    else after_arming g p.reading (lift (set_read_timeout (timeout_at - p.now)))

-- `Some` of the client without the ACK.
unfoldable pub eat_ack_from : GdbRemote → Bytes → Option GdbRemote
eat_ack_from g [] = none
eat_ack_from g (c ∷ s) = if c == b'+' then some (record g { data_buffer = s }) else none

unfoldable pub eat_ack : GdbRemote → Option GdbRemote
unfolding eat_ack_from
eat_ack g = eat_ack_from g g.data_buffer

unfoldable pub eat_packet : GdbRemote → Result (Bytes × GdbRemote)
eat_packet g = do
  data_ ← parse_gdb_packet g.data_buffer
  rest ← slice_from (length data_ + 4) g.data_buffer
  ok (data_, record g { data_buffer = rest })

abbrev pub Answer : Type 0
Answer = Result (Response × Timestamp)

-- The response with the timestamp of the TCP packet in which it began.
unfoldable pub stamped : Option Timestamp → Response → Answer
stamped last r = do timestamp ← expect last; ok (r, timestamp)

-- A packet that was eaten is the answer, and an error of `eat_packet` leads on to more feeding.
unfoldable pub after_packet : GdbRemote → Result (Bytes × GdbRemote) → Option (GdbRemote × Answer)
unfolding stamped
after_packet g (ok (data_, g')) = some (g', stamped g'.last_rx_packet_timestamp (packet data_))
after_packet g (err e) = none
after_packet g panic = some (g, panic)

unfoldable pub after_ack : GdbRemote → Option GdbRemote → Option (GdbRemote × Answer)
unfolding stamped after_packet
after_ack g (some g') = some (g', stamped g'.last_rx_packet_timestamp ack)
after_ack g none = after_packet g (eat_packet g)

-- What one round of the loop of `read_response` finds in the buffer.
unfoldable pub attempt : GdbRemote → Option (GdbRemote × Answer)
unfolding after_ack
attempt g = after_ack g (eat_ack g)

-- The client after a read, its answer (`none` while it still waits, at the end of the polls), and
-- the polls that are left.
pub record Read : Type 0 where
  pub client : GdbRemote
  pub answer : Option Answer
  pub left : List Poll

unfoldable pub read_loop : ℕ → GdbRemote → List Poll → Read
read_loop timeout_at g [] = elim (attempt g) [
  | none ↦ record { client = g; answer = none; left = [] }
  | some (g', a) ↦ record { client = g'; answer = some a; left = [] }
]
read_loop timeout_at g (p ∷ ps) = elim (attempt g) [
  | some (g', a) ↦ record { client = g'; answer = some a; left = p ∷ ps }
  | none ↦
      let (g', fed) = feed_buffer_from_stream timeout_at g p in
      elim fed [
        | ok _ ↦ read_loop timeout_at g' ps
        | err e ↦ record { client = g'; answer = some (err e); left = ps }
        | panic ↦ record { client = g'; answer = some panic; left = ps }
      ]
]

unfoldable pub read_response : ℕ → GdbRemote → List Poll → Read
unfolding read_loop
read_response now g ps = read_loop (now + g.timeout_after) g ps

unfoldable pub send_packet : GdbRemote → Bytes → Sending → Result Timestamp
send_packet g contents w = lift (send g.stream (build_gdb_packet contents) w)
