-- ===== src/Mem/Served.antt =====
-- A server that answers: what the memory sampler (src/sampler/memsampler.rs) then samples.
use ocdscope.Prelude.{
  ℕ, ◌+◌, ◌<◌, ◌≡◌, ◌≢◌, refl, sym, ap, ◌∙◌, Option, none, some, List, [], ◌∷◌, ◌++◌, append-nil,
  ok, All, All-append, Lacks, arith,
}
use mathlib.Core.Path.{subst}
use ocdscope.Text.{Bytes, codes, same, format_hex}
use ocdscope.Text.Ascii.{IsHex, format_hex-All}
use ocdscope.Text.Pieces.{All-mono}
use ocdscope.Ttstream.{Timestamp, TimestampedTcpStream, send, get_systemtime}
use ocdscope.Float.{Floats}
use ocdscope.Gdb.Packet.{build_gdb_packet}
use ocdscope.Gdb.Remote.{Response, packet, GdbRemote, read_response, send_packet}
use ocdscope.Gdb.Stamps.{IsStamped}
use ocdscope.Gdb.Stream.{encode, IsPlain, stream_of, Arrives, read_response-Delivered}
use ocdscope.Gdb.Kept.{read_response-timeout_after}
use ocdscope.Mem.{read_request, sampled, keep_alive, on_response}
use ocdscope.Mem.Laws.{hex_of, little_endian, on_response-hex_of}
use ocdscope.Mem.Session.{
  Reading, answered, read, Exchange, get_or_insert, await_value, Gathered, add_value, gather,
}

-- A client with nothing left in its buffer, that waits so long for a response.
pub record IsIdle (timeout : ℕ) (g : GdbRemote) : Type 0 where
  pub stamped_ : IsStamped g
  pub emptied : g.data_buffer ≡ []
  pub waits_for : g.timeout_after ≡ timeout

-- The TCP packets of a reading bring one response, in time, however it is cut.
pub record Brings (timeout : ℕ) (response : Response) (r : Reading) : Type 0 where
  pub arrive : All (Arrives (r.now + timeout)) r.polls
  pub spelled : stream_of r.polls ≡ encode response

append-eq_nil : (xs ys : Bytes) → xs ++ ys ≡ [] → xs ≡ []
append-eq_nil [] ys e = refl
append-eq_nil (x ∷ xs) ys e = absurd (cc)

-- The read returns the response, and leaves an idle client.
read-Brings :
    (timeout : ℕ) (g : GdbRemote) (r : Reading) (response : Response)
    → IsPlain response
    → IsIdle timeout g
    → Brings timeout response r
    → (g' : GdbRemote) × (t : Timestamp) × (read g r ≡ ok (g', response, t)) × IsIdle timeout g'
unfolding read answered
read-Brings timeout g r response plain idle b =
    let out = read_response r.now g r.polls in
    let whole : g.data_buffer ++ stream_of r.polls ≡ encode response ++ [] =
      ap (λ l. l ++ stream_of r.polls) idle.emptied
      ∙ b.spelled
      ∙ sym (append-nil (encode response)) in
    let d =
      read_response-Delivered r.now g r.polls response [] plain idle.stamped_
        (subst (λ n. All (Arrives (r.now + n)) r.polls) (sym idle.waits_for) b.arrive) whole in
    (
      out.client,
      d.timestamp,
      ap (answered out.client) d.answered,
      record {
        stamped_ = d.client_stamped;
        emptied = append-eq_nil out.client.data_buffer (stream_of out.left) d.unread;
        waits_for = read_response-timeout_after r.now g r.polls ∙ idle.waits_for;
      },
    )

-- A word of memory, in its bytes.
pub record Word : Type 0 where
  pub b0 : ℕ
  pub b1 : ℕ
  pub b2 : ℕ
  pub b3 : ℕ
  pub small : (b0 < 256) × (b1 < 256) × (b2 < 256) × (b3 < 256)

abbrev pub spelled_word : Word → Response
spelled_word w = packet (hex_of (w.b0 ∷ w.b1 ∷ w.b2 ∷ w.b3 ∷ []))

abbrev pub alive : Response
alive = packet (codes "O")

-- The server gives the word, after any number of packets that keep the connection alive.
pub data Replies (timeout : ℕ) (w : Word) : List Reading → Type 0 where
  at_once :
      (r : Reading) (rs : List Reading)
      → Brings timeout (spelled_word w) r
      → Replies timeout w (r ∷ rs)
  later :
      (r : Reading) (rs : List Reading)
      → Brings timeout alive r
      → Replies timeout w rs
      → Replies timeout w (r ∷ rs)

-- The request for the address is sent whole, on any stream, and the server replies with the word.
pub record Serves (timeout address : ℕ) (w : Word) (x : Exchange) : Type 0 where
  pub sends :
      (s : TimestampedTcpStream)
      → (t : Timestamp) × (send s (build_gdb_packet (read_request address)) x.sending ≡ ok t)
  pub replies : Replies timeout w x.readings

-- Every address is served, each with a word.
abbrev pub AllServed : ℕ → List ℕ → List Word → List Exchange → Type 0
AllServed timeout [] [] xs = Unit
AllServed timeout [] (w ∷ ws) xs = ⊥
AllServed timeout (a ∷ addresses) [] xs = ⊥
AllServed timeout (a ∷ addresses) (w ∷ ws) [] = ⊥
AllServed timeout (a ∷ addresses) (w ∷ ws) (x ∷ xs) =
    Serves timeout a w x × AllServed timeout addresses ws xs

abbrev IsSome : Option ℕ → Type 0
IsSome o = (n : ℕ) × (o ≡ some n)

first_time : (o : Option ℕ) (t : ℕ) → (s : ℕ) × (get_or_insert o t ≡ some s)
unfolding get_or_insert
first_time none t = (t, refl)
first_time (some s) t = (s, refl)

hex_of-Lacks : (bs : Bytes) → Lacks b'#' (hex_of bs)
unfolding hex_of
hex_of-Lacks [] = tt
hex_of-Lacks (b ∷ bs) =
    All-append (λ c. c ≢ b'#') (format_hex 2 b) (hex_of bs)
      (All-mono {P = IsHex} (format_hex 2 b) (λ c (_, _, other). other) (format_hex-All 2 b))
      (hex_of-Lacks bs)

alive-Lacks : Lacks b'#' (codes "O")
alive-Lacks = (λ e. omega arith, tt)

module _ (fl : Floats) where
  open fl use {F64, widen, bits_f32}

  -- The number that is sampled of a word: the `f32` with these bits, lowest byte first.
  abbrev pub float_of : Word → F64
  float_of w = widen (bits_f32 (little_endian w.b0 w.b1 w.b2 w.b3))

  on_response-alive : on_response fl alive ≡ keep_alive
  unfolding on_response same
  on_response-alive = refl

  module _ (g g' : GdbRemote) (at : Option ℕ) (r : Reading) (rs : List Reading)
      (response : Response) (t : Timestamp) (e : read g r ≡ ok (g', response, t)) where
    await_value-sampled :
        (v : F64)
        → on_response fl response ≡ sampled v
        → await_value fl g at (r ∷ rs) ≡ ok (g', get_or_insert at (get_systemtime t), v)
    unfolding await_value
    await_value-sampled v f = rw (await_value, e, f) refl

    await_value-keep_alive :
        on_response fl response ≡ keep_alive
        → await_value fl g at (r ∷ rs) ≡ await_value fl g' (get_or_insert at (get_systemtime t)) rs
    unfolding await_value
    await_value-keep_alive f = rw (await_value, e, f) refl

  -- The loop over the responses ends with the word, and a time.
  await_value-Replies :
      (timeout : ℕ) (w : Word) (rs : List Reading) (g : GdbRemote) (at : Option ℕ)
      → IsIdle timeout g
      → Replies timeout w rs
      → (g' : GdbRemote) × (t : ℕ) × (await_value fl g at rs ≡ ok (g', some t, float_of w))
        × IsIdle timeout g'
  await_value-Replies timeout w _ g at idle (at_once r rs b) =
      let bytes = w.b0 ∷ w.b1 ∷ w.b2 ∷ w.b3 ∷ [] in
      let (g', t, e, idle') =
        read-Brings timeout g r (spelled_word w) (hex_of-Lacks bytes) idle b in
      let (h0, h1, h2, h3) = w.small in
      let v = on_response-hex_of fl w.b0 w.b1 w.b2 w.b3 h0 h1 h2 h3 in
      let (t', f) = first_time at (get_systemtime t) in
      (
        g',
        t',
        await_value-sampled g g' at r rs (spelled_word w) t e (float_of w) v
            ∙ ap (λ o. ok (g', o, float_of w)) f,
        idle',
      )
  await_value-Replies timeout w _ g at idle (later r rs b more) =
      let (g', t, e, idle') = read-Brings timeout g r alive alive-Lacks idle b in
      let (g'', t', f, idle'') =
        await_value-Replies timeout w rs g' (get_or_insert at (get_systemtime t)) idle' more in
      (g'', t', await_value-keep_alive g g' at r rs alive t e on_response-alive ∙ f, idle'')

  -- The addresses with the numbers of their words, in order.
  abbrev pub values : List ℕ → List Word → List (ℕ × F64)
  values [] ws = []
  values (a ∷ addresses) [] = []
  values (a ∷ addresses) (w ∷ ws) = (a, float_of w) ∷ values addresses ws

  -- The loop over the addresses ends with a value for each, and a client that is idle again.
  pub record AllRead (timeout : ℕ) (g : GdbRemote) (req at : Option ℕ) (addresses : List ℕ)
      (ws : List Word) (xs : List Exchange) : Type 0 where
    pub gathered : Gathered fl
    pub result : gather fl g req at addresses xs ≡ ok gathered
    pub samples : gathered.samples ≡ values addresses ws
    pub idle : IsIdle timeout gathered.client
    pub times :
        (addresses ≡ [] → IsSome req × IsSome at)
        → IsSome gathered.requested_at × IsSome gathered.received_at

  pub gather-AllRead :
      (timeout : ℕ) (addresses : List ℕ) (ws : List Word) (xs : List Exchange) (g : GdbRemote)
      (req at : Option ℕ)
      → IsIdle timeout g
      → AllServed timeout addresses ws xs
      → AllRead timeout g req at addresses ws xs
  unfolding gather send_packet add_value
  gather-AllRead timeout [] [] xs g req at idle _ = record {
    gathered = record { client = g; requested_at = req; received_at = at; samples = [] };
    result = refl;
    samples = refl;
    idle = idle;
    times = λ h. h refl;
  }
  gather-AllRead timeout [] (w ∷ ws) xs g req at idle h = absurd h
  gather-AllRead timeout (a ∷ addresses) [] xs g req at idle h = absurd h
  gather-AllRead timeout (a ∷ addresses) (w ∷ ws) [] g req at idle h = absurd h
  gather-AllRead timeout (a ∷ addresses) (w ∷ ws) (x ∷ xs) g req at idle (served, h) =
      let (t, sent) = served.sends g.stream in
      let (g', time, got, idle') =
        await_value-Replies timeout w x.readings g at idle served.replies in
      let rest =
        gather-AllRead timeout addresses ws xs g' (get_or_insert req (get_systemtime t)) (some time)
          idle' h in
      record {
        gathered = add_value fl (a, float_of w) rest.gathered;
        result = rw (sent, got, rest.result) refl;
        samples = ap (λ l. (a, float_of w) ∷ l) rest.samples;
        idle = rest.idle;
        times = λ _. rest.times (λ _. (first_time req (get_systemtime t), (time, refl)));
      }
