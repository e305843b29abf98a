-- ===== src/Gdb/Stamps.antt =====
-- The timestamp that `read_response` of src/gdbremote.rs expects to be set.
use ocdscope.Prelude.{
  ℕ, ◌+◌, ◌≡◌, ◌≢◌, refl, ap, ◌∙◌, inl, inr, Option, none, some, List, [], ◌∷◌, ◌++◌, arith,
  Outcome, ok, err, panic, true, ◌||◌, All, Option-cases,
}
use mathlib.Core.Path.{subst}
use ocdscope.Text.{Bytes}
use ocdscope.Ttstream.{
  IoError, Timestamp, Reading, receive, SysResult, failed, returned, TimestampedTcpStream,
  set_read_timeout,
}
use ocdscope.Ttstream.Laws.{InRange, receive_lem, receive_failed}
use ocdscope.Gdb.Remote.{
  GdbRemote, Response, ack, packet, Poll, Answer, has_byte, has_start, absorb, after_arming,
  feed_buffer_from_stream, attempt, stamped, Read, read_loop, read_response,
}
use ocdscope.Gdb.ReadLoop.{
  read_loop-answered, read_loop-waiting, read_loop-Fed, more, gave_up, broke,
}
use ocdscope.Gdb.Eating.{nothing, took_ack, took_packet, attempt-Taken}

-- A buffer that holds the start of a response has the timestamp of the TCP packet it came in.
abbrev pub IsStamped : GdbRemote → Type 0
IsStamped g = has_start g.data_buffer ≡ true → g.last_rx_packet_timestamp ≢ none

-- The times among the control messages of a poll can be represented.
abbrev pub IsSane : Poll → Type 0
IsSane p = All InRange p.reading.control

has_byte-append : (b : ℕ) (s t : Bytes) → has_byte b (s ++ t) ≡ (has_byte b s || has_byte b t)
unfolding has_byte
has_byte-append b [] t = refl
has_byte-append b (c ∷ s) t = ground (arith, has_byte-append b s t)

has_start-append : (s t : Bytes) → has_start (s ++ t) ≡ (has_start s || has_start t)
unfolding has_start
has_start-append s t = ground (arith, has_byte-append b'$' s t, has_byte-append b'+' s t)

-- What remains of a buffer begins a response only if the whole buffer did.
has_start-suffix : (s t : Bytes) → has_start t ≡ true → has_start (s ++ t) ≡ true
has_start-suffix s t h = ground (arith, has_start-append s t)

absorb-IsStamped :
    (g : GdbRemote) (r : Outcome IoError (Bytes × Timestamp))
    → IsStamped g
    → IsStamped (absorb g r).0
unfolding absorb
absorb-IsStamped g (ok ([], t)) h = h
absorb-IsStamped g (ok (b ∷ received, t)) h =
    ground (arith, has_start-append g.data_buffer (b ∷ received))
absorb-IsStamped g (err IoError.would_block) h = h
absorb-IsStamped g (err IoError.timed_out) h = h
absorb-IsStamped g (err (IoError.other code)) h = h
absorb-IsStamped g panic h = h

receive-ne-panic :
    (s : TimestampedTcpStream) (r : Reading) → All InRange r.control → receive s r ≢ panic
receive-ne-panic s r h e = go r.outcome refl
  where
    go : (o : SysResult Bytes) → r.outcome ≡ o → ⊥
    go (failed x) p = cc (receive_failed s r x p)
    go (returned buf) p = cc (receive_lem s r buf p h)

absorb-ne-panic :
    (g : GdbRemote) (r : Outcome IoError (Bytes × Timestamp)) → r ≢ panic → (absorb g r).1 ≢ panic
unfolding absorb
absorb-ne-panic g (ok ([], t)) h = λ e. cc
absorb-ne-panic g (ok (b ∷ received, t)) h = λ e. cc
absorb-ne-panic g (err IoError.would_block) h = λ e. cc
absorb-ne-panic g (err IoError.timed_out) h = λ e. cc
absorb-ne-panic g (err (IoError.other code)) h = λ e. cc
absorb-ne-panic g panic h = absurd (h refl)

-- Feeding keeps the invariant and does not panic.
pub feed-IsStamped :
    (timeout_at : ℕ) (g : GdbRemote) (p : Poll)
    → IsStamped g
    → IsSane p
    → IsStamped (feed_buffer_from_stream timeout_at g p).0
      × ((feed_buffer_from_stream timeout_at g p).1 ≢ panic)
unfolding feed_buffer_from_stream after_arming set_read_timeout
feed-IsStamped timeout_at g p h sane =
    let read = receive g.stream p.reading in
    ground (
      arith,
      absorb-IsStamped g read h,
      absorb-ne-panic g read (receive-ne-panic g.stream p.reading sane),
    )

stamped_total :
    (last : Option Timestamp) (r : Response)
    → last ≢ none
    → (t : Timestamp) × (stamped last r ≡ ok (r, t))
unfolding stamped
stamped_total none r h = absurd (h refl)
stamped_total (some t) r h = (t, refl)

-- Where the timestamp is set, an answer has it, and the client keeps it.
answered :
    (g : GdbRemote) (r : Response) (s : Bytes) {g' : GdbRemote} {a : Answer}
    → g.last_rx_packet_timestamp ≢ none
    → attempt g ≡ some (record g { data_buffer = s }, stamped g.last_rx_packet_timestamp r)
    → attempt g ≡ some (g', a)
    → IsStamped g' × (a ≢ panic)
answered g r s {g'} {a} set taken e =
    let (t, e') = stamped_total g.last_rx_packet_timestamp r set in
    let pair : ◌≡◌ {A = GdbRemote × Answer}
        (record g { data_buffer = s }, stamped g.last_rx_packet_timestamp r) (g', a) =
      cc in
    subst (λ (q : GdbRemote × Answer). IsStamped q.0 × (q.1 ≢ panic)) pair
      (λ _. set, rw e' (λ x. cc))

has_start_ack : (s : Bytes) → has_start (b'+' ∷ s) ≡ true
unfolding has_start has_byte
has_start_ack s = ground arith

has_start_packet : (s : Bytes) → has_start (b'$' ∷ s) ≡ true
unfolding has_start has_byte
has_start_packet s = ground arith

-- What is taken from the buffer has its timestamp.
pub attempt-IsStamped :
    (g g' : GdbRemote) (a : Answer)
    → IsStamped g
    → attempt g ≡ some (g', a)
    → IsStamped g' × (a ≢ panic)
attempt-IsStamped g g' a h e = elim (attempt-Taken g) [
  | nothing none_there ↦ cc
  | took_ack s spelled taken ↦ answered g ack s (h (ap has_start spelled ∙ has_start_ack s)) taken e
  | took_packet d x y rest spelled _ taken ↦
      answered g (packet d) rest (h (ap has_start spelled ∙ has_start_packet _)) taken e
]

-- A read keeps the invariant and its answer is no panic.
abbrev pub IsSafe : Read → Type 0
IsSafe r = IsStamped r.client × (r.answer ≢ some panic)

some-panic : (a : Answer) → a ≢ panic → some a ≢ some panic
some-panic a h e = h (cc)

read_loop-IsSafe :
    (timeout_at : ℕ) (g : GdbRemote) (ps : List Poll)
    → IsStamped g
    → All IsSane ps
    → IsSafe (read_loop timeout_at g ps)
read_loop-IsSafe timeout_at g [] h sane = elim (Option-cases (attempt g)) [
  | inl e ↦ rw (read_loop-waiting timeout_at g e) (h, λ x. cc)
  | inr ((g', a), e) ↦
      let (kept, fine) = attempt-IsStamped g g' a h e in
      rw (read_loop-answered timeout_at g g' a [] e) (kept, some-panic a fine)
]
read_loop-IsSafe timeout_at g (p ∷ ps) h (hp, sane) =
    let (kept, fine) = feed-IsStamped timeout_at g p h hp in
    elim (Option-cases (attempt g)) [
      | inr ((g', a), e) ↦
          let (left, right) = attempt-IsStamped g g' a h e in
          rw (read_loop-answered timeout_at g g' a (p ∷ ps) e) (left, some-panic a right)
      | inl e ↦ elim (read_loop-Fed timeout_at g p ps e) [
        | more _ step ↦
            rw step
              (read_loop-IsSafe timeout_at (feed_buffer_from_stream timeout_at g p).0 ps kept sane)
        | gave_up x _ step ↦ rw step (kept, λ q. cc)
        | broke f _ ↦ absurd (fine f)
      ]
    ]

-- If the client is stamped (a start byte or an ACK in its buffer has a timestamp) and the control
-- times of the TCP packets are in range, then `read_response` does not panic, and the client that
-- it leaves is stamped again.
pub read_response-IsSafe :
    (now : ℕ) (g : GdbRemote) (ps : List Poll)
    → IsStamped g
    → All IsSane ps
    → IsSafe (read_response now g ps)
unfolding read_response
read_response-IsSafe now g ps h sane = read_loop-IsSafe (now + g.timeout_after) g ps h sane
