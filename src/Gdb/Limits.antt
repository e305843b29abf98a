-- ===== src/Gdb/Limits.antt =====
-- The end of `read_response` of src/gdbremote.rs, and the buffers that it finds no response in.
use ocdscope.Prelude.{
  ℕ, ◌+◌, ◌<◌, ◌≡◌, ◌≢◌, sym, ap, ◌∙◌, inl, inr, Option, none, some, List, [], ◌∷◌, ◌++◌, arith,
  ltb, lt→ltb, Outcome, ok, err, panic, Lacks, Option-cases, Bool-cases,
}
use ocdscope.Text.{Bytes}
use ocdscope.Ttstream.{IoError, Timestamp, Reading, receive}
use ocdscope.Gdb.Packet.{timeout, Result, checksum, read_checksum}
use ocdscope.Gdb.Remote.{
  GdbRemote, Response, Poll, Answer, absorb, after_arming, feed_buffer_from_stream, attempt, Read,
  read_loop, read_response,
}
use ocdscope.Gdb.ReadLoop.{
  read_loop-answered, read_loop-waiting, read_loop-Fed, more, gave_up, broke,
}
use ocdscope.Gdb.Eating.{
  framed, Checked, nothing, took_ack, took_packet, attempt-Taken, framed-injective, framed-append,
}

-- A poll that comes too late is a timeout.
feed_late :
    (timeout_at : ℕ) (g : GdbRemote) (p : Poll)
    → timeout_at < p.now
    → (feed_buffer_from_stream timeout_at g p).1 ≡ err timeout
unfolding feed_buffer_from_stream
feed_late timeout_at g p late = rw (lt→ltb timeout_at p.now late)

some-ne-none : (a : Answer) → ◌≢◌ {A = Option Answer} (some a) none
some-ne-none a e = cc

read_loop_late :
    (timeout_at : ℕ) (g : GdbRemote) (front : List Poll) (p : Poll) (back : List Poll)
    → timeout_at < p.now
    → (read_loop timeout_at g (front ++ p ∷ back)).answer ≢ none
read_loop_late timeout_at g [] p back late = elim (Option-cases (attempt g)) [
  | inr ((g', a), e) ↦ rw (read_loop-answered timeout_at g g' a (p ∷ back) e) (some-ne-none a)
  | inl e ↦ elim (read_loop-Fed timeout_at g p back e) [
    | more f _ ↦ absurd (cc (feed_late timeout_at g p late))
    | gave_up x _ step ↦ rw step (some-ne-none (err x))
    | broke _ step ↦ rw step (some-ne-none panic)
  ]
]
read_loop_late timeout_at g (q ∷ front) p back late = elim (Option-cases (attempt g)) [
  | inr ((g', a), e) ↦
      rw (read_loop-answered timeout_at g g' a (q ∷ front ++ p ∷ back) e) (some-ne-none a)
  | inl e ↦ elim (read_loop-Fed timeout_at g q (front ++ p ∷ back) e) [
    | more _ step ↦
        rw step
          (read_loop_late timeout_at (feed_buffer_from_stream timeout_at g q).0 front p back late)
    | gave_up x _ step ↦ rw step (some-ne-none (err x))
    | broke _ step ↦ rw step (some-ne-none panic)
  ]
]

-- A read ends: it has its answer, if any of its polls of the stream is made after its timeout,
-- whatever the polls before give.
pub read_response_ends :
    (now : ℕ) (g : GdbRemote) (front : List Poll) (p : Poll) (back : List Poll)
    → now + g.timeout_after < p.now
    → (read_response now g (front ++ p ∷ back)).answer ≢ none
unfolding read_response
read_response_ends now g front p back late =
    read_loop_late (now + g.timeout_after) g front p back late

-- A buffer that begins with a byte of no response, or with a packet whose checksum is wrong.
pub data IsJammed : Bytes → Type 0 where
  stray : (c : ℕ) (s b : Bytes) → b ≡ c ∷ s → c ≢ b'+' → c ≢ b'$' → IsJammed b
  corrupt :
      (d : Bytes) (h l : ℕ) (rest b : Bytes)
      → b ≡ framed d h l rest
      → Lacks b'#' d
      → read_checksum (h ∷ l ∷ []) ≢ ok (checksum d)
      → IsJammed b

IsJammed-append : (b t : Bytes) → IsJammed b → IsJammed (b ++ t)
IsJammed-append b t (stray c s _ e p q) = stray c (s ++ t) (b ++ t) (ap (λ x. x ++ t) e) p q
IsJammed-append b t (corrupt d h l rest _ e lacks bad) =
    corrupt d h l (rest ++ t) (b ++ t) (ap (λ x. x ++ t) e ∙ framed-append d h l rest t) lacks bad

plus_dollar : {s t : Bytes} → ◌≡◌ {A = Bytes} (b'+' ∷ s) (b'$' ∷ t) → ⊥
plus_dollar {s} {t} e = let p : ◌≡◌ {A = ℕ} b'+' b'$' = cc in omega arith

jammed_nothing : (g : GdbRemote) → IsJammed g.data_buffer → attempt g ≡ none
jammed_nothing g j = elim (attempt-Taken g) [
  | nothing e ↦ e
  | took_ack s spelled _ ↦ absurd (not_ack s spelled j)
  | took_packet d x y rest spelled checked _ ↦ absurd (not_packet d x y rest spelled checked j)
]
  where
    not_ack : (s : Bytes) → g.data_buffer ≡ b'+' ∷ s → IsJammed g.data_buffer → ⊥
    not_ack s spelled (stray c t _ e p q) = p (cc)
    not_ack s spelled (corrupt d h l rest _ e lacks bad) = plus_dollar (sym spelled ∙ e)

    not_packet :
        (d : Bytes) (x y : ℕ) (rest : Bytes)
        → g.data_buffer ≡ framed d x y rest
        → Checked d x y
        → IsJammed g.data_buffer
        → ⊥
    not_packet d x y rest spelled checked (stray c t _ e p q) = q (cc)
    not_packet d x y rest spelled (lacks, digits) (corrupt d' h l rest' _ e lacks' bad) =
        let (same, hi, lo, _) =
          framed-injective d d' x y h l rest rest' lacks lacks' (sym spelled ∙ e) in
        bad (rw (← same, ← hi, ← lo) digits)

absorb-IsJammed :
    (g : GdbRemote) (r : Outcome IoError (Bytes × Timestamp))
    → IsJammed g.data_buffer
    → IsJammed (absorb g r).0.data_buffer
unfolding absorb
absorb-IsJammed g (ok ([], t)) j = j
absorb-IsJammed g (ok (b ∷ received, t)) j = IsJammed-append g.data_buffer (b ∷ received) j
absorb-IsJammed g (err IoError.would_block) j = j
absorb-IsJammed g (err IoError.timed_out) j = j
absorb-IsJammed g (err (IoError.other code)) j = j
absorb-IsJammed g panic j = j

after_arming-IsJammed :
    (g : GdbRemote) (r : Reading) (armed : Result (Unit {0}))
    → IsJammed g.data_buffer
    → IsJammed (after_arming g r armed).0.data_buffer
unfolding after_arming
after_arming-IsJammed g r (ok _) j = absorb-IsJammed g (receive g.stream r) j
after_arming-IsJammed g r (err e) j = j
after_arming-IsJammed g r panic j = j

feed-IsJammed :
    (timeout_at : ℕ) (g : GdbRemote) (p : Poll)
    → IsJammed g.data_buffer
    → IsJammed (feed_buffer_from_stream timeout_at g p).0.data_buffer
unfolding feed_buffer_from_stream
feed-IsJammed timeout_at g p j = elim (Bool-cases (ltb timeout_at p.now)) [
  | inl late ↦ rw late j
  | inr early ↦ rw early (after_arming-IsJammed g p.reading _ j)
]

-- The read found no response, and the client is no better off.
abbrev pub IsStuck : Read → Type 0
IsStuck r =
    ((x : Response) (t : Timestamp) → r.answer ≢ some (ok (x, t))) × IsJammed r.client.data_buffer

read_loop-IsStuck :
    (timeout_at : ℕ) (g : GdbRemote) (ps : List Poll)
    → IsJammed g.data_buffer
    → IsStuck (read_loop timeout_at g ps)
read_loop-IsStuck timeout_at g [] j =
    rw (read_loop-waiting timeout_at g (jammed_nothing g j)) (λ x t e. cc, j)
read_loop-IsStuck timeout_at g (p ∷ ps) j =
    let j' = feed-IsJammed timeout_at g p j in
    elim (read_loop-Fed timeout_at g p ps (jammed_nothing g j)) [
      | more _ step ↦
          rw step (read_loop-IsStuck timeout_at (feed_buffer_from_stream timeout_at g p).0 ps j')
      | gave_up x _ step ↦ rw step (λ y t e. cc, j')
      | broke _ step ↦ rw step (λ y t e. cc, j')
    ]

-- Once the buffer begins with a stray byte or a corrupt packet, no read finds a response ever
-- again, whatever the stream brings: every later read starts from such a buffer too.
pub read_response-IsStuck :
    (now : ℕ) (g : GdbRemote) (ps : List Poll)
    → IsJammed g.data_buffer
    → IsStuck (read_response now g ps)
unfolding read_response
read_response-IsStuck now g ps j = read_loop-IsStuck (now + g.timeout_after) g ps j
