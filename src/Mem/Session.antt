-- ===== src/Mem/Session.antt =====
-- The session of the memory sampler with the GDB server, of src/sampler/memsampler.rs: opening it,
-- and reading the active addresses once.
use ocdscope.Prelude.{
  ℕ, ◌+◌, ◌-◌, ◌/◌, ◌%◌, ◌^◌, Bool, Option, none, some, List, [], ◌∷◌, leb, if◌then◌else◌, Outcome,
  ok, err, panic, ◌>>=◌,
}
use ocdscope.Text.{codes}
use ocdscope.Ttstream.{Timestamp, Connecting, Sending, get_systemtime, SysResult}
use ocdscope.Gdb.Packet.{Result}
use ocdscope.Gdb.Remote.{
  Response, is_ack, is_packet_with, GdbRemote, Poll, Answer, connect, set_timeout, read_response,
  send_packet,
}
use ocdscope.Telnet.Lines.{TelnetInterface}
use ocdscope.Telnet.Lines
use ocdscope.Telnet.Commands
use ocdscope.Sampler.{Failure, gdb_failed, unexpected_reply}
use ocdscope.Float.{Floats}
use ocdscope.Mem.{read_request, sampled, keep_alive, unexpected, on_response}

-- Why the session does not go on: it still waits for a response, or the thread is to end.
pub data Halt : Type 0 where
  waiting : Halt
  ended : Failure → Halt

abbrev pub Session {ℓ} : Type ℓ → Type ℓ
Session A = Outcome Halt A

-- `?` on a result of the GDB client.
abbrev pub gdb {ℓ} : {A : Type ℓ} → Result A → Session A
gdb (ok a) = ok a
gdb (err e) = err (ended (gdb_failed e))
gdb panic = panic

-- What one call of `read_response` meets: its time, and the polls of the socket in it.
pub record Reading : Type 0 where
  pub now : ℕ
  pub polls : List Poll

-- The answer of a read, or none yet.
unfoldable pub answered : GdbRemote → Option Answer → Session (GdbRemote × Response × Timestamp)
answered g none = err waiting
answered g (some a) = do (response, timestamp) ← gdb a; ok (g, response, timestamp)

unfoldable pub read : GdbRemote → Reading → Session (GdbRemote × Response × Timestamp)
unfolding answered
read g r = let out = read_response r.now g r.polls in answered out.client out.answer

-- A response that must pass a test.
unfoldable pub read_expected : (Response → Bool) → GdbRemote → Reading → Session GdbRemote
unfolding read
read_expected test g r = do
  (g', response, _) ← read g r
  if test response then ok g' else err (ended unexpected_reply)

-- What the start of the thread meets.
pub record Opening : Type 0 where
  pub connecting : Connecting
  pub first : Reading
  pub sending : Sending
  pub second : Reading
  pub third : Reading

-- From the connection to the point where the server needs no ACK.
unfoldable pub open_session : Opening → Session GdbRemote
unfolding read_expected
open_session o = do
  g ← gdb (connect o.connecting)
  g1 ← read_expected is_ack (set_timeout 2_000_000_000 g) o.first
  _ ← gdb (send_packet g1 (codes "QStartNoAckMode") o.sending)
  g2 ← read_expected is_ack g1 o.second
  read_expected (is_packet_with (codes "OK")) g2 o.third

-- The start of the thread asks OpenOCD for the highest speed; it goes on whatever comes of that.
unfoldable pub maximize_adapter_speed :
    ℕ → SysResult (List Lines.Poll × List Lines.Written) → Lines.Result ℕ
maximize_adapter_speed now c =
    Commands.connect c >>= λ t. (Commands.set_adapter_speed now 1_000_000 t).1

-- What the reading of one address meets: the sending of the request, and reads of responses.
pub record Exchange : Type 0 where
  pub sending : Sending
  pub readings : List Reading

-- `Option::get_or_insert`
unfoldable pub get_or_insert : Option ℕ → ℕ → Option ℕ
get_or_insert none t = some t
get_or_insert (some s) t = some s

module _ (fl : Floats) where
  open fl use {F64}

  -- The loop over the responses, until one gives a value.
  unfoldable pub await_value :
      GdbRemote → Option ℕ → List Reading → Session (GdbRemote × Option ℕ × F64)
  await_value g received_at [] = err waiting
  await_value g received_at (r ∷ rs) = elim (read g r) [
    | err h ↦ err h
    | panic ↦ panic
    | ok (g', response, timestamp) ↦
        let at = get_or_insert received_at (get_systemtime timestamp) in
        elim (on_response fl response) [
          | sampled v ↦ ok (g', at, v)
          | keep_alive ↦ await_value g' at rs
          | unexpected ↦ await_value g' at rs
        ]
  ]

  -- What the loop over the addresses gives.
  pub record Gathered : Type 0 where
    pub client : GdbRemote
    pub requested_at : Option ℕ
    pub received_at : Option ℕ
    pub samples : List (ℕ × F64)

  unfoldable pub add_value : ℕ × F64 → Gathered → Gathered
  add_value s x = record x { samples = s ∷ x.samples }

  unfoldable pub gather :
      GdbRemote → Option ℕ → Option ℕ → List ℕ → List Exchange → Session Gathered
  unfolding get_or_insert add_value
  gather g requested_at received_at [] xs =
      ok (record {
        client = g;
        requested_at = requested_at;
        received_at = received_at;
        samples = [];
      })
  gather g requested_at received_at (address ∷ addresses) [] = err waiting
  gather g requested_at received_at (address ∷ addresses) (x ∷ xs) = do
    timestamp ← gdb (send_packet g (read_request address) x.sending)
    (g', at, v) ← await_value g received_at x.readings
    rest ← gather g' (get_or_insert requested_at (get_systemtime timestamp)) at addresses xs
    ok (add_value (address, v) rest)

-- Microseconds from `start` on, 0 for a time before it, as a `u64`.
unfoldable pub micros_since : ℕ → ℕ → ℕ
micros_since start t = (if leb start t then (t - start) / 1000 else 0) % 2 ^ 64

-- The time of the sample; the sum of two `u64` wraps around.
unfoldable pub averaged : ℕ → ℕ → ℕ
averaged request response = (request + response) % 2 ^ 64 / 2
