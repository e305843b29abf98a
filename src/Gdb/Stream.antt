-- ===== src/Gdb/Stream.antt =====
-- `read_response` of src/gdbremote.rs against the stream of bytes that the TCP packets carry.
use ocdscope.Prelude.{
  ℕ, ◌+◌, ◌<◌, ◌/◌, ◌%◌, ◌≡◌, ◌≢◌, refl, sym, ap, ◌∙◌, Option, none, some, List, [], ◌∷◌, ◌++◌,
  append_assoc, append-nil, arith, ok, err, panic, All, Lacks, Option-cases, inl, inr,
}
use ocdscope.Text.{Bytes, format_hex, hex_digit}
use ocdscope.Ttstream.{Timestamp, receive, SysResult, failed, returned, set_read_timeout}
use ocdscope.Ttstream.Laws.{receive_lem}
use ocdscope.Gdb.Packet.{GdbRemoteError, Result, checksum, build_gdb_packet}
use ocdscope.Gdb.PacketLaws.{read_checksum-format_hex, checksum-lt}
use ocdscope.Gdb.Remote.{
  GdbRemote, Response, ack, packet, Poll, feed_buffer_from_stream, attempt, stamped, Read,
  read_loop, read_response,
}
use ocdscope.Gdb.ReadLoop.{read_loop-answered, read_loop-Fed, more, gave_up, broke}
use ocdscope.Gdb.Eating.{
  framed, Checked, nothing, took_ack, took_packet, attempt-Taken, attempt-ack, attempt-framed,
  framed-injective, framed-append,
}
use ocdscope.Gdb.Stamps.{IsStamped, IsSane, feed-IsStamped, attempt-IsStamped}

-- The bytes of a response.
unfoldable pub encode : Response → Bytes
encode ack = b'+' ∷ []
encode (packet d) = build_gdb_packet d

-- A response whose contents hold no `#`, which would have to be escaped.
abbrev pub IsPlain : Response → Type 0
IsPlain ack = Unit
IsPlain (packet d) = Lacks b'#' d

-- The bytes that a poll brings.
abbrev chunk_of : SysResult Bytes → Bytes
chunk_of (failed e) = []
chunk_of (returned b) = b

abbrev pub chunk : Poll → Bytes
chunk p = chunk_of p.reading.outcome

abbrev pub stream_of : List Poll → Bytes
stream_of [] = []
stream_of (p ∷ ps) = chunk p ++ stream_of ps

-- A poll before the timeout that brings some bytes.
pub record Arrives (timeout_at : ℕ) (p : Poll) : Type 0 where
  pub early : p.now < timeout_at
  pub some_bytes : chunk p ≢ []
  pub sane : IsSane p

feed_bytes :
    (timeout_at : ℕ) (g : GdbRemote) (p : Poll) (b : ℕ) (s : Bytes) (t : Timestamp)
    → p.now < timeout_at
    → receive g.stream p.reading ≡ ok (b ∷ s, t)
    → ((feed_buffer_from_stream timeout_at g p).1 ≡ ok tt)
      × ((feed_buffer_from_stream timeout_at g p).0.data_buffer ≡ g.data_buffer ++ b ∷ s)
unfolding feed_buffer_from_stream set_read_timeout
feed_bytes timeout_at g p b s t early e = ground arith

-- Such a poll adds its bytes to the buffer.
feed-Arrives :
    (timeout_at : ℕ) (g : GdbRemote) (p : Poll)
    → Arrives timeout_at p
    → ((feed_buffer_from_stream timeout_at g p).1 ≡ ok tt)
      × ((feed_buffer_from_stream timeout_at g p).0.data_buffer ≡ g.data_buffer ++ chunk p)
feed-Arrives timeout_at g p a = go p.reading.outcome refl
  where
    go :
        (o : SysResult Bytes)
        → p.reading.outcome ≡ o
        → ((feed_buffer_from_stream timeout_at g p).1 ≡ ok tt)
          × ((feed_buffer_from_stream timeout_at g p).0.data_buffer ≡ g.data_buffer ++ chunk p)
    go (failed e) q = absurd (a.some_bytes (ap chunk_of q))
    go (returned []) q = absurd (a.some_bytes (ap chunk_of q))
    go (returned (b ∷ s)) q =
        let (fed, added) =
          feed_bytes timeout_at g p b s _ a.early
            (receive_lem g.stream p.reading (b ∷ s) q a.sane) in
        (fed, added ∙ ap (λ o. g.data_buffer ++ chunk_of o) (sym q))

ok_err : {e : GdbRemoteError} → ◌≡◌ {A = Result (Unit {0})} (ok tt) (err e) → ⊥
ok_err p = cc

ok_panic : ◌≡◌ {A = Result (Unit {0})} (ok tt) panic → ⊥
ok_panic p = cc

-- A packet that is built has digits that match.
built :
    (d : Bytes)
    → Lacks b'#' d
    → (h : ℕ) × (l : ℕ) × Checked d h l × ((t : Bytes) → build_gdb_packet d ++ t ≡ framed d h l t)
built d lacks =
    let n = checksum d in
    (
      hex_digit (n / 16 % 16),
      hex_digit (n % 16),
      (lacks, unfold format_hex in read_checksum-format_hex n (checksum-lt d)),
      λ t. unfold build_gdb_packet format_hex in append_assoc (b'$' ∷ d) _ t,
    )

-- What a read hands over: the response with a timestamp, and all that stands behind it in the
-- stream, in the buffer and in polls that are still to come.
pub record Delivered (timeout_at : ℕ) (r : Response) (tail : Bytes) (out : Read) : Type 0 where
  pub timestamp : Timestamp
  pub answered : out.answer ≡ some (ok (r, timestamp))
  pub unread : out.client.data_buffer ++ stream_of out.left ≡ tail
  pub client_stamped : IsStamped out.client
  pub to_come : All (Arrives timeout_at) out.left

stamped-ne-panic :
    (last : Option Timestamp) (r : Response)
    → stamped last r ≢ panic
    → (t : Timestamp) × (stamped last r ≡ ok (r, t))
unfolding stamped
stamped-ne-panic none r h = absurd (h refl)
stamped-ne-panic (some t) r h = (t, refl)

deliver :
    (timeout_at : ℕ) (r : Response) (tail : Bytes) (g g' : GdbRemote) (ps : List Poll)
    → IsStamped g
    → All (Arrives timeout_at) ps
    → attempt g ≡ some (g', stamped g.last_rx_packet_timestamp r)
    → g'.data_buffer ++ stream_of ps ≡ tail
    → Delivered timeout_at r tail (read_loop timeout_at g ps)
deliver timeout_at r tail g g' ps h arrive e unread =
    let (kept, fine) = attempt-IsStamped g g' _ h e in
    let (t, q) = stamped-ne-panic g.last_rx_packet_timestamp r fine in
    rw (read_loop-answered timeout_at g g' _ ps e) (record {
      timestamp = t;
      answered = ap some q;
      unread = unread;
      client_stamped = kept;
      to_come = arrive;
    })

-- Where the stream begins with a response, the buffer holds no other one.
ack_first :
    (r : Response) (tail s : Bytes)
    → IsPlain r
    → b'+' ∷ s ≡ encode r ++ tail
    → (r ≡ ack) × (s ≡ tail)
unfolding encode
ack_first ack tail s plain e = (refl, cc)
ack_first (packet d) tail s plain e =
    let (h, l, _, spelled) = built d plain in let e' = e ∙ spelled tail in absurd (plus_dollar (cc))
  where
    plus_dollar : ◌≡◌ {A = ℕ} b'+' b'$' → ⊥
    plus_dollar p = omega arith

packet_first :
    (r : Response) (tail d : Bytes) (x y : ℕ) (rest : Bytes)
    → IsPlain r
    → Lacks b'#' d
    → framed d x y rest ≡ encode r ++ tail
    → (r ≡ packet d) × (rest ≡ tail)
unfolding encode
packet_first ack tail d x y rest plain lacks e = absurd (dollar_plus (cc))
  where
    dollar_plus : ◌≡◌ {A = ℕ} b'$' b'+' → ⊥
    dollar_plus p = omega arith
packet_first (packet d') tail d x y rest plain lacks e =
    let (h, l, _, spelled) = built d' plain in
    let (same, _, _, behind) =
      framed-injective d d' x y h l rest tail lacks plain (e ∙ spelled tail) in
    (ap packet (sym same), behind)

-- A response that is complete in the buffer is found.
found :
    (g : GdbRemote) (r : Response) (tail : Bytes)
    → IsPlain r
    → g.data_buffer ≡ encode r ++ tail
    → attempt g ≢ none
unfolding encode
found g ack tail plain e none_there = cc (attempt-ack g tail e)
found g (packet d) tail plain e none_there =
    let (h, l, checked, spelled) = built d plain in
    cc (attempt-framed g d h l tail (e ∙ spelled tail) checked)

-- The buffer and the stream behind it begin with the response `r`.
module _ (timeout_at : ℕ) (r : Response) (tail : Bytes) (plain : IsPlain r) where
  in_buffer :
      (g : GdbRemote) (ps : List Poll)
      → IsStamped g
      → All (Arrives timeout_at) ps
      → g.data_buffer ++ stream_of ps ≡ encode r ++ tail
      → attempt g ≢ none
      → Delivered timeout_at r tail (read_loop timeout_at g ps)
  in_buffer g ps h arrive e some_there = elim (attempt-Taken g) [
    | nothing none_there ↦ absurd (some_there none_there)
    | took_ack s spelled taken ↦
        let (is, behind) =
          ack_first r tail (s ++ stream_of ps) plain
            (ap (λ b. b ++ stream_of ps) (sym spelled) ∙ e) in
        deliver timeout_at r tail g _ ps h arrive
          (taken
            ∙ ap (λ x. some (record g { data_buffer = s }, stamped g.last_rx_packet_timestamp x))
                (sym is))
          behind
    | took_packet d x y rest spelled (lacks, _) taken ↦
        let (is, behind) = packet_first r tail d x y (rest ++ stream_of ps) plain lacks (
          sym (framed-append d x y rest (stream_of ps))
          ∙ ap (λ b. b ++ stream_of ps) (sym spelled)
          ∙ e) in
        deliver timeout_at r tail g _ ps h arrive
          (taken
            ∙ ap (λ x. some (record g { data_buffer = rest }, stamped g.last_rx_packet_timestamp x))
                (sym is))
          behind
  ]

  read_loop-Delivered :
      (g : GdbRemote) (ps : List Poll)
      → IsStamped g
      → All (Arrives timeout_at) ps
      → g.data_buffer ++ stream_of ps ≡ encode r ++ tail
      → Delivered timeout_at r tail (read_loop timeout_at g ps)
  read_loop-Delivered g [] h arrive e =
      in_buffer g [] h arrive e (found g r tail plain (sym (append-nil g.data_buffer) ∙ e))
  read_loop-Delivered g (p ∷ ps) h (hp, arrive) e = elim (Option-cases (attempt g)) [
    | inr (a, taken) ↦ in_buffer g (p ∷ ps) h (hp, arrive) e (λ q. cc)
    | inl waiting ↦
        let (fed, added) = feed-Arrives timeout_at g p hp in
        let g' = (feed_buffer_from_stream timeout_at g p).0 in
        let (kept, _) = feed-IsStamped timeout_at g p h hp.sane in
        let whole : g'.data_buffer ++ stream_of ps ≡ encode r ++ tail =
          ap (λ b. b ++ stream_of ps) added
          ∙ append_assoc g.data_buffer (chunk p) (stream_of ps)
          ∙ e in
        elim (read_loop-Fed timeout_at g p ps waiting) [
          | more _ step ↦ rw step (read_loop-Delivered g' ps kept arrive whole)
          | gave_up x f _ ↦ absurd (ok_err (sym fed ∙ f))
          | broke f _ ↦ absurd (ok_panic (sym fed ∙ f))
        ]
  ]

-- A read of a stamped client finds its response however TCP cuts the bytes: if the buffer and the
-- TCP packets to come begin with an ACK or with a packet whose contents hold no `#`, and every TCP
-- packet comes before the timeout, is not empty and has control times in range, then the read
-- returns that response, and everything behind it is left for the next read.
pub read_response-Delivered :
    (now : ℕ) (g : GdbRemote) (ps : List Poll) (r : Response) (tail : Bytes)
    → IsPlain r
    → IsStamped g
    → All (Arrives (now + g.timeout_after)) ps
    → g.data_buffer ++ stream_of ps ≡ encode r ++ tail
    → Delivered (now + g.timeout_after) r tail (read_response now g ps)
unfolding read_response
read_response-Delivered now g ps r tail plain h arrive e =
    read_loop-Delivered (now + g.timeout_after) r tail plain g ps h arrive e
