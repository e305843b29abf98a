-- ===== src/Gdb/Kept.antt =====
-- What a read of the client of src/gdbremote.rs leaves as it is: its timeout.
use ocdscope.Prelude.{
  ℕ, ◌-◌, ◌≡◌, refl, ◌∙◌, List, [], ◌∷◌, Outcome, ok, err, panic, ltb, Bool-cases, inl, inr,
}
use ocdscope.Text.{Bytes}
use ocdscope.Ttstream.{
  IoError, would_block, timed_out, other, Timestamp, Reading, receive, set_read_timeout,
}
use ocdscope.Gdb.Packet.{Result}
use ocdscope.Gdb.Remote.{
  GdbRemote, Poll, lift, absorb, after_arming, feed_buffer_from_stream, read_loop, read_response,
}
use ocdscope.Gdb.ReadLoop.{
  read_loop-answered, read_loop-waiting, read_loop-Fed, more, gave_up, broke,
}
use ocdscope.Gdb.Eating.{nothing, took_ack, took_packet, attempt-Taken}

absorb-timeout_after :
    (g : GdbRemote) (o : Outcome IoError (Bytes × Timestamp))
    → (absorb g o).0.timeout_after ≡ g.timeout_after
unfolding absorb
absorb-timeout_after g (ok ([], t)) = refl
absorb-timeout_after g (ok (b ∷ s, t)) = refl
absorb-timeout_after g (err would_block) = refl
absorb-timeout_after g (err timed_out) = refl
absorb-timeout_after g (err (other code)) = refl
absorb-timeout_after g panic = refl

after_arming-timeout_after :
    (g : GdbRemote) (r : Reading) (o : Result (Unit {0}))
    → (after_arming g r o).0.timeout_after ≡ g.timeout_after
unfolding after_arming
after_arming-timeout_after g r (ok _) = absorb-timeout_after g (receive g.stream r)
after_arming-timeout_after g r (err e) = refl
after_arming-timeout_after g r panic = refl

feed-timeout_after :
    (timeout_at : ℕ) (g : GdbRemote) (p : Poll)
    → (feed_buffer_from_stream timeout_at g p).0.timeout_after ≡ g.timeout_after
unfolding feed_buffer_from_stream
feed-timeout_after timeout_at g p = elim (Bool-cases (ltb timeout_at p.now)) [
  | inl e ↦ rw (feed_buffer_from_stream, e) refl
  | inr e ↦
      rw (feed_buffer_from_stream, e)
        (after_arming-timeout_after g p.reading (lift (set_read_timeout (timeout_at - p.now))))
]

read_loop-timeout_after :
    (timeout_at : ℕ) (g : GdbRemote) (ps : List Poll)
    → (read_loop timeout_at g ps).client.timeout_after ≡ g.timeout_after
read_loop-timeout_after timeout_at g [] = elim (attempt-Taken g) [
  | took_ack s _ e ↦ rw (read_loop-answered timeout_at g _ _ [] e) refl
  | took_packet d h l rest _ _ e ↦ rw (read_loop-answered timeout_at g _ _ [] e) refl
  | nothing e ↦ rw (read_loop-waiting timeout_at g e) refl
]
read_loop-timeout_after timeout_at g (p ∷ ps) = elim (attempt-Taken g) [
  | took_ack s _ e ↦ rw (read_loop-answered timeout_at g _ _ (p ∷ ps) e) refl
  | took_packet d h l rest _ _ e ↦ rw (read_loop-answered timeout_at g _ _ (p ∷ ps) e) refl
  | nothing e ↦ elim (read_loop-Fed timeout_at g p ps e) [
    | more _ step ↦ rw step (
        read_loop-timeout_after timeout_at (feed_buffer_from_stream timeout_at g p).0 ps
        ∙ feed-timeout_after timeout_at g p)
    | gave_up x _ f ↦ rw f (feed-timeout_after timeout_at g p)
    | broke _ f ↦ rw f (feed-timeout_after timeout_at g p)
  ]
]

pub read_response-timeout_after :
    (now : ℕ) (g : GdbRemote) (ps : List Poll)
    → (read_response now g ps).client.timeout_after ≡ g.timeout_after
unfolding read_response
read_response-timeout_after now g ps = read_loop-timeout_after _ g ps
