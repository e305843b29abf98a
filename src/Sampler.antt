-- ===== src/Sampler.antt =====
-- What the samplers share: src/sampler/mod.rs, and the end of each round of a sampler thread.
pub mod Channel
pub mod Commands
pub mod History
pub mod Lifecycle
pub mod Stopping
use ocdscope.Prelude.{ℕ, [], ◌∷◌, ◌++◌, Bool, true, false, Option, none, some, List, if◌then◌else◌}
use ocdscope.Text.{Bytes}
use ocdscope.Gdb.Packet.{GdbRemoteError}

pub data Status : Type 0 where
  initializing sampling paused terminated : Status

-- `PartialEq` of `Status`
unfoldable pub same_status : Status → Status → Bool
same_status initializing initializing = true
same_status sampling sampling = true
same_status paused paused = true
same_status terminated terminated = true
same_status _ _ = false

-- Why a sampler thread returns an error.
pub data Failure : Type 0 where
  command_channel_closed remote_closed packet_decode_failed timestamp_not_provided : Failure
  sample_receiver_gone notification_receiver_gone server_stop_failed : Failure
  invalid_signals unexpected_reply still_running panicked startup_failed : Failure
  gdb_failed : GdbRemoteError → Failure

-- A message of text is kept as what it is made of.
pub data Notification : Type 0 where
  new_status : Status → Notification
  -- `{} samples/s`, of so many samples in so many nanoseconds
  rate_info : ℕ → ℕ → Notification
  info : Bytes → Notification
  error : Failure → Notification

-- A sample: its time in microseconds, and a value for each signal.
abbrev pub Sample : Type 0 → Type 0
Sample V = ℕ × List (ℕ × V)

-- What a thread sends on its two channels, in order.
pub data Effect (V : Type 0) : Type 0 where
  sent : Sample V → Effect V
  notified : Notification → Effect V

-- `mpsc::Receiver::try_recv`
pub data TryRecv (C : Type 0) : Type 0 where
  received : C → TryRecv C
  empty : TryRecv C
  disconnected : TryRecv C

-- How a round ends, or that it still waits, or that it is blocked, or that the thread panicked in it.
-- A thread is blocked while it sends a sample and the channel, which is bounded, has no place for it.
-- The state of the last three is the one in which the round began.
pub data Next (S : Type 0) : Type 0 where
  continue : S → Next S
  finished : Next S
  failed_with : Failure → Next S
  waits blocked died : S → Next S

-- The end of a thread for a reason; a panic is not reported, and a loop that is still running has not
-- ended.
unfoldable pub ends_with : {S : Type 0} → S → Failure → Next S
ends_with t panicked = died t
ends_with t still_running = waits t
ends_with t f = failed_with f

-- The end of each round: a new status that differs from the old one is notified and taken over.
unfoldable pub switch_status : Status → Option Status → Option Status
switch_status status none = none
switch_status status (some s) = if same_status s status then none else some s

-- What a thread that ends with an error sends at last, in the closure that `start` spawns.
unfoldable pub report : {V : Type 0} → Failure → List (Effect V)
report f = notified (error f) ∷ notified (new_status terminated) ∷ []

module _ {V S : Type 0} where
  -- The end of a round that goes on in thread `t`, or in `with_status s` with a new status `s`.
  unfoldable pub conclude :
      (Status → S) → S → Bool → Option Status → List (Effect V) → List (Effect V) × Next S
  conclude with_status t open_ none es = (es, continue t)
  conclude with_status t open_ (some s) es =
      if open_
      then (es ++ notified (new_status s) ∷ [], continue (with_status s))
      else (es, failed_with notification_receiver_gone)

  -- Effects that came before.
  abbrev pub after : List (Effect V) → List (Effect V) × Next S → List (Effect V) × Next S
  after es (es', next) = (es ++ es', next)

  -- What follows on a round that went on, or on the end of the thread.
  unfoldable pub run_on :
      (S → List (Effect V) × Next S) → List (Effect V) × Next S → List (Effect V) × Next S
  unfolding report
  run_on rest (es, continue t) = after es (rest t)
  run_on rest (es, finished) = (es, finished)
  run_on rest (es, waits t) = (es, waits t)
  run_on rest (es, blocked t) = (es, blocked t)
  run_on rest (es, died t) = (es, died t)
  run_on rest (es, failed_with f) = (es ++ report f, failed_with f)

  -- A thread by what its rounds meet: what it has sent after them, and whether it goes on.
  unfoldable pub run :
      {R : Type 0} → (S → R → List (Effect V) × Next S) → List R → S → List (Effect V) × Next S
  unfolding run_on
  run round [] t = ([], continue t)
  run round (r ∷ rs) t = run_on (run round rs) (round t r)
