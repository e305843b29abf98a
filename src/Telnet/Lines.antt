-- ===== src/Telnet/Lines.antt =====
-- Reading lines and writing commands over Telnet: the private half of `TelnetInterface` in
-- src/openocd/telnet_interface.rs. The connection of the telnet crate is the environment: the
-- events that its reads give, each with the time at which it is asked, and what its writes give.
use ocdscope.Prelude.{
  ℕ, zero, suc, ◌+◌, ◌-◌, Bool, true, false, ◌&&◌, Option, none, some, List, [], ◌∷◌, ◌++◌, ltb,
  leb, ◌==◌, if◌then◌else◌, length, take, drop, position, Outcome, ok, err, panic,
}
use ocdscope.Text.{Bytes, codes, same, starts_with, ends_with}
use ocdscope.Ttstream.{IoError, would_block, timed_out, other}

pub data TelnetInterfaceError : Type 0 where
  io_error : IoError → TelnetInterfaceError
  telnet_error : ℕ → TelnetInterfaceError
  timeout : TelnetInterfaceError
  unexpected_response : Bytes → TelnetInterfaceError

-- What `read_timeout` of the connection gives.
pub data Event : Type 0 where
  data_event : Bytes → Event
  other_event : Event
  read_failed : IoError → Event

pub record Poll : Type 0 where
  pub now : ℕ
  pub event : Event

-- What `write` of the connection gives.
pub data Written : Type 0 where
  accepted : Written
  write_failed : ℕ → Written

-- The interface with its connection: what is to come from it, and what was written to it.
pub record TelnetInterface : Type 0 where
  pub timeout_after : ℕ
  pub buffer : Bytes
  pub polls : List Poll
  pub writes : List Written
  pub written : List Bytes

-- Why an operation does not return a value: an error of the code, the environment is at its end
-- and the code still waits, or the fuel of the model is (`budget` is enough).
pub data Stop : Type 0 where
  raised : TelnetInterfaceError → Stop
  waiting exhausted : Stop

abbrev pub Result {ℓ} : Type ℓ → Type ℓ
Result A = Outcome Stop A

abbrev pub Act {ℓ} : Type ℓ → Type ℓ
Act A = TelnetInterface → TelnetInterface × Result A

abbrev pub bind_to {ℓ κ} :
    {A : Type ℓ} {B : Type κ}
    → TelnetInterface × Result A
    → (A → Act B)
    → TelnetInterface × Result B
bind_to (t, ok a) f = f a t
bind_to (t, err e) f = (t, err e)
bind_to (t, panic) f = (t, panic)

infixl 5 ◌>>=◌ ◌>>◌
abbrev pub ◌>>=◌ {ℓ κ} : {A : Type ℓ} {B : Type κ} → Act A → (A → Act B) → Act B
m >>= f = λ t. bind_to (m t) f

abbrev pub ◌>>◌ {ℓ} : {B : Type ℓ} → Act (Unit {0}) → Act B → Act B
m >> k = m >>= λ _. k

abbrev pub pure {ℓ} : {A : Type ℓ} → A → Act A
pure a = λ t. (t, ok a)

abbrev pub fail {ℓ} : {A : Type ℓ} → TelnetInterfaceError → Act A
fail e = λ t. (t, err (raised e))

-- The bytes that are no NOP.
unfoldable pub without_nul : Bytes → Bytes
without_nul [] = []
without_nul (c ∷ s) = if c == 0 then without_nul s else c ∷ without_nul s

unfoldable pub absorb : Event → Act ℕ
unfolding without_nul
absorb (data_event s) t = (record t { buffer = t.buffer ++ without_nul s }, ok (length s))
absorb other_event t = (t, ok 0)
absorb (read_failed timed_out) t = (t, err (raised timeout))
absorb (read_failed would_block) t = (t, err (raised (io_error would_block)))
absorb (read_failed (other code)) t = (t, err (raised (io_error (other code))))

-- One read, at the next poll.
unfoldable pub read_into_buffer : ℕ → Poll → Act ℕ
unfolding absorb
read_into_buffer timeout_at p t =
    if ltb timeout_at p.now then (t, err (raised timeout)) else absorb p.event t

-- The loop of `wait_prompt` over the polls to come.
unfoldable pub prompt_loop : ℕ → List Poll → Act (Unit {0})
prompt_loop timeout_at [] t =
    if ends_with (codes "> ") t.buffer
    then (record t { buffer = []; polls = [] }, ok tt)
    else (record t { polls = [] }, err waiting)
prompt_loop timeout_at (p ∷ ps) t = elim (ends_with (codes "> ") t.buffer) [
  | true ↦ (record t { buffer = []; polls = p ∷ ps }, ok tt)
  | false ↦
      bind_to (read_into_buffer timeout_at p (record t { polls = ps }))
        (λ _. prompt_loop timeout_at ps)
]

unfoldable pub wait_prompt : ℕ → Act (Unit {0})
unfolding prompt_loop
wait_prompt timeout_at t = prompt_loop timeout_at t.polls t

-- `i >= 1 && &buffer[i - 1..i + 1] == b"\r\n"`, where the byte at `i` is a line feed.
unfoldable pub ends_line : ℕ → Bytes → Bool
ends_line i buffer = leb 1 i && same (take 2 (drop (i - 1) buffer)) (codes "\r\n")

-- The part of `read_line` that looks for a line in the buffer: a line or none, and the buffer that
-- is left. Lines that begin with two backspaces are dropped. The fuel is the buffer's length.
unfoldable pub find_line : ℕ → Bytes → Option Bytes × Bytes
find_line zero buffer = (none, buffer)
find_line (suc fuel) buffer = elim (position (λ b. b == 10) buffer) [
  | none ↦ (none, buffer)
  | some i ↦ elim (ends_line i buffer) [
    | false ↦ (none, buffer)
    | true ↦ elim (starts_with (8 ∷ 8 ∷ []) (take (i + 1) buffer)) [
      | true ↦ find_line fuel (drop (i + 1) buffer)
      | false ↦ (some (take (i + 1) buffer), drop (i + 1) buffer)
    ]
  ]
]

unfoldable pub next_line : Bytes → Option Bytes × Bytes
unfolding find_line
next_line buffer = find_line (length buffer) buffer

-- The loop of `read_line` over the polls to come.
unfoldable pub line_loop : ℕ → List Poll → Act Bytes
line_loop timeout_at [] t =
    let (line, buffer) = next_line t.buffer in
    elim line [
      | some l ↦ (record t { buffer = buffer; polls = [] }, ok l)
      | none ↦ (record t { buffer = buffer; polls = [] }, err waiting)
    ]
line_loop timeout_at (p ∷ ps) t =
    let (line, buffer) = next_line t.buffer in
    elim line [
      | some l ↦ (record t { buffer = buffer; polls = p ∷ ps }, ok l)
      | none ↦
          bind_to (read_into_buffer timeout_at p (record t { buffer = buffer; polls = ps }))
            (λ _. line_loop timeout_at ps)
    ]

unfoldable pub read_line : ℕ → Act Bytes
unfolding line_loop
read_line timeout_at t = line_loop timeout_at t.polls t

unfoldable pub expect_line_with : ℕ → (Bytes → Bool) → Act Bytes
unfolding read_line
expect_line_with timeout_at predicate = do
  line ← read_line timeout_at
  if predicate line then pure line else fail (unexpected_response line)

-- How `wait_line_with` ends when the time is over.
abbrev timed_out_after : Bytes → TelnetInterfaceError
timed_out_after [] = timeout
timed_out_after (c ∷ s) = unexpected_response (c ∷ s)

-- The loop of `wait_line_with`, with the lines discarded so far. The fuel bounds the lines.
unfoldable pub wait_loop : ℕ → ℕ → (Bytes → Bool) → Bytes → Act Bytes
wait_loop zero timeout_at predicate discarded t = (t, err exhausted)
wait_loop (suc fuel) timeout_at predicate discarded t =
    let (t', r) = read_line timeout_at t in
    elim r [
      | ok line ↦ elim (predicate line) [
        | true ↦ (t', ok line)
        | false ↦ wait_loop fuel timeout_at predicate (discarded ++ line) t'
      ]
      | err (raised timeout) ↦ (t', err (raised (timed_out_after discarded)))
      | err e ↦ (t', err e)
      | panic ↦ (t', panic)
    ]

unfoldable pub event_size : Event → ℕ
event_size (data_event s) = length s
event_size other_event = 0
event_size (read_failed e) = 0

unfoldable pub polls_size : List Poll → ℕ
polls_size [] = 0
polls_size (p ∷ ps) = event_size p.event + polls_size ps

-- More than the lines that the buffer and the polls hold.
unfoldable pub budget : TelnetInterface → ℕ
unfolding polls_size
budget t = suc (length t.buffer + polls_size t.polls)

unfoldable pub wait_line_with : ℕ → (Bytes → Bool) → Act Bytes
unfolding wait_loop
wait_line_with timeout_at predicate t = wait_loop (budget t) timeout_at predicate [] t

-- `self.connection.write(&buffer)?`
unfoldable pub write : Bytes → Act (Unit {0})
write s t = elim t.writes [
  | [] ↦ (t, err waiting)
  | accepted ∷ ws ↦ (record t { writes = ws; written = t.written ++ s ∷ [] }, ok tt)
  | write_failed code ∷ ws ↦ (record t { writes = ws }, err (raised (telnet_error code)))
]

unfoldable pub write_command : Bytes → ℕ → Act (Unit {0})
unfolding write wait_line_with
write_command command timeout_at = do
  write (command ++ codes "\r\n")
  _ ← wait_line_with timeout_at (λ echoed. ends_with (command ++ codes "\r\n") echoed)
  pure tt
