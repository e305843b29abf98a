-- ===== src/Telnet/Budget.antt =====
-- The fuel of the loops over lines, of src/openocd/telnet_interface.rs.
use ocdscope.Prelude.{
  ℕ, zero, suc, ◌+◌, ◌<◌, ◌≤◌, ◌≡◌, ◌≢◌, refl, sym, ap, inl, inr, Bool, Option, none, some, List,
  [], ◌∷◌, ◌++◌, arith, ltb, ◌==◌, length, length-append, length-drop, take, drop, position,
  position-eq-some, Bool-cases, Option-cases, ok, err, panic,
}
use mathlib.Core.Path.{subst}
use ocdscope.Text.{Bytes, starts_with}
use ocdscope.Ttstream.{would_block, timed_out, other}
use ocdscope.Telnet.Lines.{
  TelnetInterfaceError, timeout, Event, data_event, other_event, read_failed, Poll, TelnetInterface,
  Stop, raised, waiting, exhausted, Result, bind_to, without_nul, absorb, read_into_buffer,
  ends_line, find_line, next_line, line_loop, read_line, wait_loop, wait_line_with, event_size,
  polls_size, budget,
}
use ocdscope.Telnet.Reading.{line_loop_found}

-- A line is taken out of the buffer, or the buffer does not grow.
data Found (buffer : Bytes) (m : Option Bytes × Bytes) : Type 0 where
  a_line : (l s : Bytes) → m ≡ (some l, s) → length s < length buffer → Found buffer m
  no_line : (s : Bytes) → m ≡ (none, s) → length s ≤ length buffer → Found buffer m

Found-drop :
    (buffer : Bytes) (n : ℕ) (m : Option Bytes × Bytes) → Found (drop n buffer) m → Found buffer m
Found-drop buffer n m (a_line l s e h) = a_line l s e (omega (arith, length-drop n buffer))
Found-drop buffer n m (no_line s e h) = no_line s e (omega (arith, length-drop n buffer))

find_line-Found : (fuel : ℕ) (buffer : Bytes) → Found buffer (find_line fuel buffer)
unfolding find_line
find_line-Found zero buffer = no_line buffer refl (omega arith)
find_line-Found (suc fuel) buffer = elim (Option-cases (position (λ b. b == 10) buffer)) [
  | inl e ↦ no_line buffer (rw (find_line, e)) (omega arith)
  | inr (i, e) ↦ elim (Bool-cases (ends_line i buffer)) [
    | inr open_ ↦ no_line buffer (rw (find_line, e, open_)) (omega arith)
    | inl ended ↦ elim (Bool-cases (starts_with (8 ∷ 8 ∷ []) (take (i + 1) buffer))) [
      | inl dropped ↦
          rw (find_line, e, ended, dropped)
            (Found-drop buffer (i + 1) _ (find_line-Found fuel (drop (i + 1) buffer)))
      | inr kept ↦
          let (inside, _, _) = position-eq-some 10 buffer e in
          a_line (take (i + 1) buffer) (drop (i + 1) buffer) (rw (find_line, e, ended, kept))
            (omega (arith, length-drop (i + 1) buffer))
    ]
  ]
]

length-without_nul : (s : Bytes) → length (without_nul s) ≤ length s
unfolding without_nul
length-without_nul [] = omega arith
length-without_nul (c ∷ s) = ground (arith, length-without_nul s)

-- The bytes that the interface holds or is still to get.
abbrev size : Bytes → List Poll → ℕ
size buffer ps = length buffer + polls_size ps

-- An answer costs bytes, and fuel is not what stops a read.
abbrev Costs {ℓ} : {A : Type ℓ} → ℕ → TelnetInterface × Result A → Type 0
Costs n (t, ok l) = size t.buffer t.polls < n
Costs n (t, err e) = e ≢ exhausted
Costs n (t, panic) = Unit

-- What is read was to come.
data Absorbed (n : ℕ) (t : TelnetInterface) (r : TelnetInterface × Result ℕ) : Type 0 where
  added :
      (t' : TelnetInterface) (k : ℕ)
      → r ≡ (t', ok k)
      → length t'.buffer ≤ length t.buffer + n
      → Absorbed n t r
  raises :
      (t' : TelnetInterface) (x : TelnetInterfaceError) → r ≡ (t', err (raised x)) → Absorbed n t r

absorb-Absorbed : (ev : Event) (t : TelnetInterface) → Absorbed (event_size ev) t (absorb ev t)
unfolding absorb event_size
absorb-Absorbed (data_event s) t =
    added _ (length s) refl
      (omega (arith, length-append t.buffer (without_nul s), length-without_nul s))
absorb-Absorbed other_event t = added t 0 refl (omega arith)
absorb-Absorbed (read_failed timed_out) t = raises t _ refl
absorb-Absorbed (read_failed would_block) t = raises t _ refl
absorb-Absorbed (read_failed (other code)) t = raises t _ refl

read_into_buffer-Absorbed :
    (timeout_at : ℕ) (p : Poll) (t : TelnetInterface)
    → Absorbed (event_size p.event) t (read_into_buffer timeout_at p t)
unfolding read_into_buffer
read_into_buffer-Absorbed timeout_at p t = elim (Bool-cases (ltb timeout_at p.now)) [
  | inl late ↦ raises t timeout (rw late)
  | inr early ↦ rw early (absorb-Absorbed p.event t)
]

line_loop-none :
    (timeout_at : ℕ) (p : Poll) (ps : List Poll) (t : TelnetInterface) {s : Bytes}
    → next_line t.buffer ≡ (none, s)
    → line_loop timeout_at (p ∷ ps) t
      ≡ bind_to
          (read_into_buffer timeout_at p (record t { buffer = s; polls = ps }))
          (λ _. line_loop timeout_at ps)
unfolding line_loop
line_loop-none timeout_at p ps t e =
    rw (line_loop, e)
      (ap
        (λ (m : Option Bytes × Bytes).
          bind_to (read_into_buffer timeout_at p (record t { buffer = m.1; polls = ps }))
            (λ _. line_loop timeout_at ps))
        e)

Costs-le : {n m : ℕ} (r : TelnetInterface × Result Bytes) → n ≤ m → Costs n r → Costs m r
Costs-le (t, ok l) h c = omega arith
Costs-le (t, err e) h c = c
Costs-le (t, panic) h c = c

raised-ne-exhausted : (x : TelnetInterfaceError) → raised x ≢ exhausted
raised-ne-exhausted x e = cc

next_line-Found : (buffer : Bytes) → Found buffer (next_line buffer)
unfolding next_line
next_line-Found buffer = find_line-Found (length buffer) buffer

line_loop-Costs :
    (timeout_at : ℕ) (ps : List Poll) (t : TelnetInterface)
    → Costs (size t.buffer ps) (line_loop timeout_at ps t)
unfolding polls_size line_loop
line_loop-Costs timeout_at [] t = elim (next_line-Found t.buffer) [
  | a_line l s e h ↦ rw (line_loop_found timeout_at [] t e) (omega arith)
  | no_line s e h ↦ rw (line_loop, e) (λ q. cc)
]
line_loop-Costs timeout_at (p ∷ ps) t = elim (next_line-Found t.buffer) [
  | a_line l s e h ↦ rw (line_loop_found timeout_at (p ∷ ps) t e) (omega arith)
  | no_line s e h ↦
      elim (read_into_buffer-Absorbed timeout_at p (record t { buffer = s; polls = ps })) [
        | raises t' x r ↦ rw (line_loop-none timeout_at p ps t e, r) (raised-ne-exhausted x)
        | added t' k r grown ↦
            rw (line_loop-none timeout_at p ps t e, r)
              (Costs-le (line_loop timeout_at ps t') (omega arith)
                (line_loop-Costs timeout_at ps t'))
      ]
]

read_line-Costs :
    (timeout_at : ℕ) (t : TelnetInterface) → Costs (size t.buffer t.polls) (read_line timeout_at t)
unfolding read_line
read_line-Costs timeout_at t = line_loop-Costs timeout_at t.polls t

-- The model does not run out of fuel.
abbrev pub WithinFuel {ℓ} : {A : Type ℓ} → TelnetInterface × Result A → Type ℓ
WithinFuel r = r.1 ≢ err exhausted

-- How a read ends.
data Reads (n : ℕ) (r : TelnetInterface × Result Bytes) : Type 0 where
  reads_line :
      (t : TelnetInterface) (l : Bytes) → r ≡ (t, ok l) → size t.buffer t.polls < n → Reads n r
  stops : (t : TelnetInterface) (e : Stop) → r ≡ (t, err e) → e ≢ exhausted → Reads n r
  breaks : (t : TelnetInterface) → r ≡ (t, panic) → Reads n r

Costs-Reads : (n : ℕ) (r : TelnetInterface × Result Bytes) → Costs n r → Reads n r
Costs-Reads n (t, ok l) h = reads_line t l refl h
Costs-Reads n (t, err e) h = stops t e refl h
Costs-Reads n (t, panic) h = breaks t refl

read_line-Reads :
    (timeout_at : ℕ) (t : TelnetInterface) → Reads (size t.buffer t.polls) (read_line timeout_at t)
read_line-Reads timeout_at t = Costs-Reads _ _ (read_line-Costs timeout_at t)

wait_loop_stops :
    (fuel timeout_at : ℕ) (predicate : Bytes → Bool) (discarded : Bytes) (t t' : TelnetInterface)
    (e : Stop)
    → read_line timeout_at t ≡ (t', err e)
    → e ≢ exhausted
    → WithinFuel (wait_loop (suc fuel) timeout_at predicate discarded t)
unfolding wait_loop
wait_loop_stops fuel timeout_at predicate discarded t t' (raised (TelnetInterfaceError.io_error x))
      e h =
    rw (wait_loop, e) (λ q. cc)
wait_loop_stops fuel timeout_at predicate discarded t t'
      (raised (TelnetInterfaceError.telnet_error x)) e h =
    rw (wait_loop, e) (λ q. cc)
wait_loop_stops fuel timeout_at predicate discarded t t' (raised timeout) e h =
    rw (wait_loop, e) (λ q. cc)
wait_loop_stops fuel timeout_at predicate discarded t t'
      (raised (TelnetInterfaceError.unexpected_response x)) e h =
    rw (wait_loop, e) (λ q. cc)
wait_loop_stops fuel timeout_at predicate discarded t t' waiting e h = rw (wait_loop, e) (λ q. cc)
wait_loop_stops fuel timeout_at predicate discarded t t' exhausted e h = absurd (h refl)

-- Each round of the loop reads one line.
wait_loop-WithinFuel :
    (fuel timeout_at : ℕ) (predicate : Bytes → Bool) (discarded : Bytes) (t : TelnetInterface)
    → size t.buffer t.polls < fuel
    → WithinFuel (wait_loop fuel timeout_at predicate discarded t)
unfolding wait_loop
wait_loop-WithinFuel zero timeout_at predicate discarded t h = absurd (omega arith)
wait_loop-WithinFuel (suc fuel) timeout_at predicate discarded t h =
    elim (read_line-Reads timeout_at t) [
      | breaks t' e ↦ rw (wait_loop, e) (λ q. cc)
      | stops t' x e fine ↦ wait_loop_stops fuel timeout_at predicate discarded t t' x e fine
      | reads_line t' l e less ↦ elim (Bool-cases (predicate l)) [
        | inl fits ↦ rw (wait_loop, e, fits) (λ q. cc)
        | inr other_line ↦
            rw (wait_loop, e, other_line)
              (subst
                (λ (x : TelnetInterface).
                  WithinFuel (wait_loop fuel timeout_at predicate (discarded ++ l) x))
                (ap (λ (x : TelnetInterface × Result Bytes). x.0) (sym e))
                (wait_loop-WithinFuel fuel timeout_at predicate (discarded ++ l) t' (omega arith)))
      ]
    ]

-- Waiting for a line never ends for want of fuel: the bytes in the buffer and those to come bound
-- the lines that there can be.
pub wait_line_with-WithinFuel :
    (timeout_at : ℕ) (predicate : Bytes → Bool) (t : TelnetInterface)
    → WithinFuel (wait_line_with timeout_at predicate t)
unfolding wait_line_with budget
wait_line_with-WithinFuel timeout_at predicate t =
    wait_loop-WithinFuel (budget t) timeout_at predicate [] t (omega arith)
