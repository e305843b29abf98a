-- ===== src/Ttstream/Laws.antt =====
-- The timestamps of messages, and the results of `receive` and `send` of src/ttstream.rs.
use ocdscope.Prelude.{
  ℕ, ◌+◌, ◌*◌, ◌%◌, ◌^◌, ◌<◌, ◌≡◌, ◌≢◌, ◌↔◌, refl, Bool, true, false, Option, none, some, List, [],
  ◌∷◌, arith, length, Outcome, ok, err, panic, All,
}
use ocdscope.Text.{Bytes}
use ocdscope.Ttstream.{
  IoError, Timestamp, by_tcp_stack, fallback, TimestampedTcpStream, Cmsg, scm_timestamping,
  unexpected_cmsg, timespec_time, scan_cmsgs, get_timestamp_cmsg, stamp, returned, failed, Reading,
  rx_stamp, receive, Sending, send, tx_stamp, get_tx_timestamp,
}

-- A control message whose time a `SystemTime` can hold.
abbrev pub InRange : Cmsg → Type 0
InRange (scm_timestamping sec nsec) = sec < 2 ^ 62
InRange (unexpected_cmsg level type_) = Unit

abbrev pub nanoseconds : ℕ → ℕ → ℕ
nanoseconds sec nsec = sec * 1_000_000_000 + nsec % 2 ^ 32

-- The time of the last timestamp among the control messages.
pub last_time : List Cmsg → Option ℕ
last_time [] = none
last_time (scm_timestamping sec nsec ∷ cs) = elim (last_time cs) [
  | none ↦ some (nanoseconds sec nsec)
  | some t ↦ some t
]
last_time (unexpected_cmsg level type_ ∷ cs) = last_time cs

abbrev or_else : Option ℕ → Option ℕ → Option ℕ
or_else none found = found
or_else (some t) found = some t

timespec_time_in_range :
    (sec nsec : ℕ) → sec < 2 ^ 62 → timespec_time sec nsec ≡ ok (nanoseconds sec nsec)
unfolding timespec_time
timespec_time_in_range sec nsec h = ground arith

scan_cmsgs-last_time :
    (cs : List Cmsg) (found : Option ℕ)
    → All InRange cs
    → scan_cmsgs found cs ≡ ok (or_else (last_time cs) found)
unfolding scan_cmsgs last_time
scan_cmsgs-last_time [] found h = refl
scan_cmsgs-last_time (scm_timestamping sec nsec ∷ cs) found (hc, h) =
    rw (timespec_time_in_range sec nsec hc)
      (rw (scan_cmsgs-last_time cs (some (nanoseconds sec nsec)) h) (ground arith))
scan_cmsgs-last_time (unexpected_cmsg level type_ ∷ cs) found (_, h) =
    scan_cmsgs-last_time cs found h

-- The timestamp that a message deserves: that of the TCP stack where timestamping is enabled and a
-- control message gives one, and otherwise the time read by hand.
pub best_stamp : Bool → List Cmsg → ℕ → Timestamp
best_stamp false cs now = fallback now
best_stamp true cs now = elim (last_time cs) [ none ↦ fallback now | some t ↦ by_tcp_stack t ]

rx_stamp-best_stamp :
    (enabled : Bool) (cs : List Cmsg) (now : ℕ)
    → All InRange cs
    → rx_stamp enabled cs now ≡ ok (best_stamp enabled cs now)
unfolding rx_stamp best_stamp get_timestamp_cmsg
rx_stamp-best_stamp false cs now h = refl
rx_stamp-best_stamp true cs now h = ground (arith, scan_cmsgs-last_time cs none h)

-- A read that succeeds hands over exactly the bytes that the socket gave, with the last kernel
-- timestamp among the control messages where timestamping is enabled and there is one, and
-- otherwise with the time read by hand, if the times of the control messages are in range.
pub receive_lem :
    (s : TimestampedTcpStream) (r : Reading) (buf : Bytes)
    → r.outcome ≡ returned buf
    → All InRange r.control
    → receive s r ≡ ok (buf, best_stamp s.timestamping_enabled r.control r.read_at)
unfolding receive
receive_lem s r buf e h = rw (e, rx_stamp-best_stamp s.timestamping_enabled r.control r.read_at h)

-- A failed read is reported as it is, with timestamping or without.
pub receive_failed :
    (s : TimestampedTcpStream) (r : Reading) (e : IoError)
    → r.outcome ≡ failed e
    → receive s r ≡ err e
unfolding receive
receive_failed s r e h = rw h

get_tx_timestamp-ne-panic :
    (w : Sending) → All InRange w.errqueue_control → get_tx_timestamp w ≢ panic
unfolding get_tx_timestamp get_timestamp_cmsg
get_tx_timestamp-ne-panic w h = ground (arith, scan_cmsgs-last_time w.errqueue_control none h)

stamp_total : (r : Outcome IoError ℕ) (now : ℕ) → r ≢ panic → (t : Timestamp) × (stamp r now ≡ ok t)
unfolding stamp
stamp_total (ok t) now h = (by_tcp_stack t, refl)
stamp_total (err e) now h = (fallback now, refl)
stamp_total panic now h = absurd (h refl)

-- With timestamping, and with control times in range, a send succeeds exactly when the socket took
-- the whole message: a short write is an error, and what the error queue says makes no send fail.
pub send_whole :
    (s : TimestampedTcpStream) (buf : Bytes) (w : Sending)
    → s.timestamping_enabled ≡ true
    → All InRange w.errqueue_control
    → ((t : Timestamp) × (send s buf w ≡ ok t)) ↔ (w.written ≡ returned (length buf))
unfolding send tx_stamp
send_whole s buf w on h = (
  λ (t, e). ground arith,
  λ e.
      let (t, p) = stamp_total (get_tx_timestamp w) w.sent_at (get_tx_timestamp-ne-panic w h) in
      (t, ground arith),
)
