-- ===== src/Ttstream.antt =====
-- The timestamped TCP stream, src/ttstream.rs. The socket is the environment: a call takes what
-- the system calls that it makes return, and `SystemTime` is a number of nanoseconds.
pub mod Laws
mod Tests
use ocdscope.Prelude.{
  ℕ, ◌+◌, ◌*◌, ◌/◌, ◌%◌, ◌^◌, Bool, true, false, not, ◌&&◌, Option, none, some, List, [], ◌∷◌, ltb,
  ◌==◌, if◌then◌else◌, length, Outcome, ok, err, panic, ◌>>=◌, ◌>>◌, refuse, ok_or,
}
use ocdscope.Text.{Bytes}

-- `std::io::Error`, by the kinds that the program tells apart.
pub data IoError : Type 0 where
  would_block timed_out : IoError
  other : ℕ → IoError

pub data Timestamp : Type 0 where
  by_tcp_stack : ℕ → Timestamp
  fallback : ℕ → Timestamp

unfoldable pub into_systemtime : Timestamp → ℕ
into_systemtime (by_tcp_stack t) = t
into_systemtime (fallback t) = t

unfoldable pub get_systemtime : Timestamp → ℕ
unfolding into_systemtime
get_systemtime t = into_systemtime t

-- What a system call returns.
pub data SysResult {ℓ} (A : Type ℓ) : Type ℓ where
  failed : IoError → SysResult A
  returned : A → SysResult A

abbrev pub sys {ℓ} : {A : Type ℓ} → SysResult A → Outcome IoError A
sys (failed e) = err e
sys (returned a) = ok a

pub record TimestampedTcpStream : Type 0 where
  pub timestamping_enabled : Bool

-- What `connect` sees: `TcpStream::connect` fails, or `setsockopt` is tried on the new socket.
pub data Connecting : Type 0 where
  refused : IoError → Connecting
  connected : Connecting
  connected_no_option : Connecting

unfoldable pub connect : Connecting → Outcome IoError TimestampedTcpStream
connect (refused e) = err e
connect connected = ok (record { timestamping_enabled = true })
connect connected_no_option = ok (record { timestamping_enabled = false })

-- A control message by its level and type: the seconds and nanoseconds of the first `timespec` of
-- an SCM_TIMESTAMPING_NEW message, as unsigned 64-bit patterns, or any other message.
pub data Cmsg : Type 0 where
  scm_timestamping : ℕ → ℕ → Cmsg
  unexpected_cmsg : ℕ → ℕ → Cmsg

-- `UNIX_EPOCH + Duration::new(sec as u64, nsec as u32)`, which panics past the range of the clock.
unfoldable pub timespec_time : ℕ → ℕ → Outcome IoError ℕ
timespec_time sec nsec =
    let nanos = nsec % 2 ^ 32 in
    let secs = sec + nanos / 1_000_000_000 in
    if ltb secs (2 ^ 63) then ok (secs * 1_000_000_000 + nanos % 1_000_000_000) else panic

-- The walk over the control messages: a later timestamp replaces an earlier one.
unfoldable pub scan_cmsgs : Option ℕ → List Cmsg → Outcome IoError (Option ℕ)
scan_cmsgs found [] = ok found
scan_cmsgs found (scm_timestamping sec nsec ∷ cs) =
    timespec_time sec nsec >>= (λ t. scan_cmsgs (some t) cs)
scan_cmsgs found (unexpected_cmsg level type_ ∷ cs) = scan_cmsgs found cs

abbrev not_found : IoError
not_found = other 0

unfoldable pub get_timestamp_cmsg : List Cmsg → Outcome IoError ℕ
unfolding scan_cmsgs
get_timestamp_cmsg cs = do found ← scan_cmsgs none cs; ok_or found not_found

-- A message of the TCP stack with its control messages, or a timestamp with the time of the call.
unfoldable pub stamp : Outcome IoError ℕ → ℕ → Outcome IoError Timestamp
stamp (ok t) now = ok (by_tcp_stack t)
stamp (err e) now = ok (fallback now)
stamp panic now = panic

-- What `recvmsg` or `read` returns, the control messages and the time just after the call.
pub record Reading : Type 0 where
  pub outcome : SysResult Bytes
  pub control : List Cmsg
  pub read_at : ℕ

-- The timestamp of what was read.
unfoldable pub rx_stamp : Bool → List Cmsg → ℕ → Outcome IoError Timestamp
unfolding stamp
rx_stamp enabled control now =
    if enabled then stamp (get_timestamp_cmsg control) now else ok (fallback now)

unfoldable pub receive : TimestampedTcpStream → Reading → Outcome IoError (Bytes × Timestamp)
unfolding rx_stamp
receive s r = do
  buf ← sys r.outcome
  timestamp ← rx_stamp s.timestamping_enabled r.control r.read_at
  ok (buf, timestamp)

-- What `sendmsg` (or `write_all`) returns, the time just after it, and what `recvmsg` on the error
-- queue returns: the number of bytes of packet data, and the control messages.
pub record Sending : Type 0 where
  pub written : SysResult ℕ
  pub sent_at : ℕ
  pub errqueue : SysResult ℕ
  pub errqueue_control : List Cmsg

unfoldable pub get_tx_timestamp : Sending → Outcome IoError ℕ
get_tx_timestamp w = do
  n ← sys w.errqueue
  refuse (not (n == 0)) (other 1)
  get_timestamp_cmsg w.errqueue_control

-- The timestamp of what was sent.
unfoldable pub tx_stamp : Bool → Sending → Outcome IoError Timestamp
unfolding stamp get_tx_timestamp
tx_stamp enabled w =
    if enabled then stamp (get_tx_timestamp w) w.sent_at else ok (fallback w.sent_at)

-- Without timestamping the stream uses `write_all`, which writes everything or fails.
unfoldable pub send : TimestampedTcpStream → Bytes → Sending → Outcome IoError Timestamp
unfolding tx_stamp
send s buf w = do
  n ← sys w.written
  refuse (s.timestamping_enabled && not (n == length buf)) (other 2)
  tx_stamp s.timestamping_enabled w

-- `set_read_timeout(Some(d))` of the standard library refuses a zero duration.
unfoldable pub set_read_timeout : ℕ → Outcome IoError (Unit {0})
set_read_timeout d = if d == 0 then err (other 22) else ok tt
