-- ===== src/Telnet/Reading.antt =====
-- `read_line` of src/openocd/telnet_interface.rs against the stream of bytes that the events carry.
use ocdscope.Prelude.{
  ℕ, suc, ◌+◌, ◌-◌, ◌≤◌, ◌≡◌, ◌≢◌, refl, sym, ap, ap₂, ◌∙◌, ◌⊎◌, inl, inr, true, false, Option,
  none, some, List, [], ◌∷◌, ◌++◌, append_assoc, append-nil, arith, ltb, leb, ◌==◌, length,
  length-append, take, drop, take-length_append, drop-length_append, position, position-append,
  position-cons_none, Lacks, All, All-append, All-append_right, ok,
}
use mathlib.Core.Path.{subst}
use ocdscope.Text.{Bytes, same, starts_with}
use ocdscope.Telnet.Lines.{
  Event, data_event, other_event, read_failed, Poll, TelnetInterface, Result, without_nul, absorb,
  read_into_buffer, ends_line, find_line, next_line, line_loop, read_line,
}

abbrev feed : ℕ
feed = 10

-- A line of text: `body` and the two bytes that end it.
abbrev pub line_of : Bytes → Bytes
line_of body = body ++ 13 ∷ feed ∷ []

-- A line that is kept: one line feed, at its end, and no two backspaces at its start.
pub record IsLine (body : Bytes) : Type 0 where
  pub lacks : Lacks feed body
  pub kept : starts_with (8 ∷ 8 ∷ []) (line_of body) ≡ false

position-Lacks : (s : Bytes) → Lacks feed s → position (λ b. b == feed) s ≡ none
unfolding position
position-Lacks [] h = refl
position-Lacks (c ∷ s) (hc, h) = position-cons_none feed c s hc (position-Lacks s h)

next_line-none : (s : Bytes) → Lacks feed s → next_line s ≡ (none, s)
unfolding next_line find_line
next_line-none [] h = refl
next_line-none (c ∷ s) h = rw (find_line, position-Lacks (c ∷ s) h) refl

-- What stands behind the body of a line.
line_of-append : (body rest : Bytes) → line_of body ++ rest ≡ body ++ 13 ∷ feed ∷ rest
line_of-append body rest = append_assoc body (13 ∷ feed ∷ []) rest

-- The end of a line, where it stands.
ends_line-line_of :
    (body rest : Bytes) (i : ℕ) → i ≡ length body + 1 → ends_line i (line_of body ++ rest) ≡ true
unfolding ends_line same
ends_line-line_of body rest i e =
    let first : leb 1 i ≡ true = ground arith in
    let index : i - 1 ≡ length body = omega arith in
    let behind : drop (i - 1) (line_of body ++ rest) ≡ 13 ∷ feed ∷ rest =
      ap₂ (λ n t. drop n t) index (line_of-append body rest)
      ∙ drop-length_append body (13 ∷ feed ∷ rest) in
    rw (first, behind) refl

position-line_of :
    (body rest : Bytes)
    → Lacks feed body
    → position (λ b. b == feed) (line_of body ++ rest) ≡ some (length body + 1)
position-line_of body rest h =
    ap (position (λ b. b == feed))
      (line_of-append body rest ∙ sym (append_assoc body (13 ∷ []) (feed ∷ rest)))
    ∙ position-append feed (body ++ 13 ∷ []) rest
        (All-append (λ c. c ≢ feed) body (13 ∷ []) h (λ q. omega arith, tt))
    ∙ ap some (length-append body (13 ∷ []))

find_line-line_of :
    (fuel : ℕ) (body rest : Bytes)
    → IsLine body
    → find_line (suc fuel) (line_of body ++ rest) ≡ (some (line_of body), rest)
unfolding find_line
find_line-line_of fuel body rest h =
    let whole : length body + 1 + 1 ≡ length (line_of body) =
      omega (arith, length-append body (13 ∷ feed ∷ [])) in
    let front : take (length body + 1 + 1) (line_of body ++ rest) ≡ line_of body =
      ap (λ n. take n (line_of body ++ rest)) whole ∙ take-length_append (line_of body) rest in
    let back : drop (length body + 1 + 1) (line_of body ++ rest) ≡ rest =
      ap (λ n. drop n (line_of body ++ rest)) whole ∙ drop-length_append (line_of body) rest in
    rw
      (
        find_line,
        position-line_of body rest h.lacks,
        ends_line-line_of body rest (length body + 1) refl,
        front,
        h.kept,
      )
      (ap₂ (λ l s. (some l, s)) front back)

-- A buffer that begins with a line gives that line.
next_line-line_of :
    (body rest : Bytes)
    → IsLine body
    → next_line (line_of body ++ rest) ≡ (some (line_of body), rest)
unfolding next_line
next_line-line_of [] rest h = find_line-line_of (suc (length rest)) [] rest h
next_line-line_of (c ∷ body) rest h =
    find_line-line_of (length (line_of body ++ rest)) (c ∷ body) rest h

-- A line feed is in every line.
line_of-ne-Lacks : (body rest : Bytes) → Lacks feed (line_of body ++ rest) → ⊥
line_of-ne-Lacks body rest h =
    let (_, (no_feed, _)) =
      All-append_right (λ c. c ≢ feed) body (13 ∷ feed ∷ rest)
        (subst (Lacks feed) (line_of-append body rest) h) in
    no_feed refl

-- A text that continues the bytes of a line does not hold its end, or holds all of it.
cut :
    (xs ys body rest : Bytes)
    → Lacks feed body
    → xs ++ ys ≡ line_of body ++ rest
    → Lacks feed xs ⊎ ((s : Bytes) × (xs ≡ line_of body ++ s) × (rest ≡ s ++ ys))
cut [] ys body rest h e = inl tt
cut (x ∷ []) ys [] rest h e = let same_head : x ≡ 13 = cc in inl (λ q. omega arith, tt)
cut (x ∷ y ∷ xs) ys [] rest h e = inr (xs, cc, cc)
cut (x ∷ xs) ys (b ∷ body) rest (hb, h) e = elim (cut xs ys body rest h (cc)) [
  | inl lacks ↦ let same_head : x ≡ b = cc in inl (λ q. hb (sym same_head ∙ q), lacks)
  | inr (s, p, q) ↦ let same_head : x ≡ b = cc in inr (s, ap₂ (λ c t. c ∷ t) same_head p, q)
]

-- The bytes of an event that count, and of all that is to come.
abbrev pub bytes_of : Event → Bytes
bytes_of (data_event s) = without_nul s
bytes_of other_event = []
bytes_of (read_failed e) = []

abbrev pub to_come : List Poll → Bytes
to_come [] = []
to_come (p ∷ ps) = bytes_of p.event ++ to_come ps

abbrev Succeeds : Event → Type 0
Succeeds (data_event s) = Unit
Succeeds other_event = Unit
Succeeds (read_failed e) = ⊥

-- A read before the timeout that does not fail.
pub record Arrives (timeout_at : ℕ) (p : Poll) : Type 0 where
  pub early : p.now ≤ timeout_at
  pub fine : Succeeds p.event

-- The read gives the line, and everything behind it is still there.
pub record Delivered (line rest : Bytes) (r : TelnetInterface × Result Bytes) : Type 0 where
  pub answer : r.1 ≡ ok line
  pub left : r.0.buffer ++ to_come r.0.polls ≡ rest

-- A read that succeeds adds its bytes to the buffer.
absorb_fine :
    (ev : Event) (t : TelnetInterface)
    → Succeeds ev
    → (n : ℕ) × (absorb ev t ≡ (record t { buffer = t.buffer ++ bytes_of ev }, ok n))
unfolding absorb
absorb_fine (data_event s) t h = (length s, refl)
absorb_fine other_event t h =
    (0, ap (λ b. (record t { buffer = b }, ok 0)) (sym (append-nil t.buffer)))
absorb_fine (read_failed e) t h = absurd h

pub line_loop_found :
    (timeout_at : ℕ) (ps : List Poll) (t : TelnetInterface) {l s : Bytes}
    → next_line t.buffer ≡ (some l, s)
    → line_loop timeout_at ps t ≡ (record t { buffer = s; polls = ps }, ok l)
unfolding line_loop
line_loop_found timeout_at [] t {l} e =
    rw (line_loop, e)
      (ap (λ (n : Option Bytes × Bytes). (record t { buffer = n.1; polls = [] }, ok l)) e)
line_loop_found timeout_at (p ∷ ps) t {l} e =
    rw (line_loop, e)
      (ap (λ (n : Option Bytes × Bytes). (record t { buffer = n.1; polls = p ∷ ps }, ok l)) e)

-- Without a line in the buffer a read comes first.
line_loop_reads :
    (timeout_at : ℕ) (p : Poll) (ps : List Poll) (t : TelnetInterface)
    → next_line t.buffer ≡ (none, t.buffer)
    → Arrives timeout_at p
    → line_loop timeout_at (p ∷ ps) t
      ≡ line_loop timeout_at ps (record t { buffer = t.buffer ++ bytes_of p.event; polls = ps })
unfolding line_loop read_into_buffer
line_loop_reads timeout_at p ps t e h =
    let on_time : ltb timeout_at p.now ≡ false = ground (arith, h.early) in
    let (n, read) =
      absorb_fine p.event (record t { buffer = (next_line t.buffer).1; polls = ps }) h.fine in
    rw (line_loop, e, on_time, read)
      (ap
        (λ (m : Option Bytes × Bytes).
          line_loop timeout_at ps (record t { buffer = m.1 ++ bytes_of p.event; polls = ps }))
        e)

module _ (timeout_at : ℕ) (body rest : Bytes) (line : IsLine body) where
  in_buffer :
      (ps : List Poll) (t : TelnetInterface) (s : Bytes)
      → t.buffer ≡ line_of body ++ s
      → rest ≡ s ++ to_come ps
      → Delivered (line_of body) rest (line_loop timeout_at ps t)
  in_buffer ps t s e q =
      rw (line_loop_found timeout_at ps t (ap next_line e ∙ next_line-line_of body s line))
        (record { answer = refl; left = sym q })

  line_loop-Delivered :
      (ps : List Poll) (t : TelnetInterface)
      → All (Arrives timeout_at) ps
      → t.buffer ++ to_come ps ≡ line_of body ++ rest
      → Delivered (line_of body) rest (line_loop timeout_at ps t)
  line_loop-Delivered [] t h e = elim (cut t.buffer [] body rest line.lacks e) [
    | inr (s, p, q) ↦ in_buffer [] t s p q
    | inl lacks ↦
        absurd
          (line_of-ne-Lacks body rest (subst (Lacks feed) (sym (append-nil t.buffer) ∙ e) lacks))
  ]
  line_loop-Delivered (p ∷ ps) t (hp, h) e =
      elim (cut t.buffer (to_come (p ∷ ps)) body rest line.lacks e) [
        | inr (s, q, r) ↦ in_buffer (p ∷ ps) t s q r
        | inl lacks ↦ rw (line_loop_reads timeout_at p ps t (next_line-none t.buffer lacks) hp) (
            line_loop-Delivered ps (record t { buffer = t.buffer ++ bytes_of p.event; polls = ps })
              h (append_assoc t.buffer (bytes_of p.event) (to_come ps) ∙ e))
      ]

-- A line is read however it is cut: if the buffer and the events to come, without their NOP bytes,
-- begin with a line (one line feed, behind a carriage return, and no two backspaces at the start),
-- and every read comes in time and does not fail, then the read returns that line and keeps
-- everything behind it for the next read.
pub read_line-Delivered :
    (timeout_at : ℕ) (t : TelnetInterface) (body rest : Bytes)
    → IsLine body
    → All (Arrives timeout_at) t.polls
    → t.buffer ++ to_come t.polls ≡ line_of body ++ rest
    → Delivered (line_of body) rest (read_line timeout_at t)
unfolding read_line
read_line-Delivered timeout_at t body rest line h e =
    line_loop-Delivered timeout_at body rest line t.polls t h e
