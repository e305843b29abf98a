-- ===== src/Fake.antt =====
-- The fake sampler, src/sampler/fakesampler.rs: the loop of its thread, one function for each round,
-- and the signals that its handle offers. A round sleeps until the time of its sample; that only
-- delays it, and is not part of what it does.
mod Handle
mod Picking
pub mod Rounds
mod Stopping
mod Tests
use ocdscope.Prelude.{
  ℕ, ◌+◌, ◌*◌, Bool, true, false, Option, none, some, List, [], ◌∷◌, if◌then◌else◌, get_elem?,
}
use ocdscope.Text.{Bytes, codes}
use ocdscope.Float.{Floats}
use ocdscope.Sampler.{
  blocked, Status, initializing, sampling, paused, terminated, Failure, command_channel_closed,
  invalid_signals, sample_receiver_gone, Effect, sent, TryRecv, received, empty, disconnected, Next,
  continue, finished, failed_with, waits, switch_status, conclude,
}
use ocdscope.Sampler.Commands.{Command, set_active, pause, resume, stop, wanted_by}

unfoldable pub available_signals : List (ℕ × Bytes)
available_signals =
    (0, codes "Low freq. sine") ∷ (1, codes "Medium freq. sine") ∷ (2, codes "High freq. sine") ∷ []

-- What the thread computes with beside the arithmetic of `f64`: the sine, `x as u64`, the constant
-- `1e6`, the three frequencies, and the period, as nanoseconds and as seconds.
pub record Waves (fl : Floats) : Type 0 where
  pub sin : fl.F64 → fl.F64
  pub as_u64 : fl.F64 → ℕ
  pub mega : fl.F64
  pub omega0 : fl.F64
  pub omega1 : fl.F64
  pub omega2 : fl.F64
  pub period : ℕ
  pub period_secs : fl.F64

-- `get` of each active signal, of which all must be there.
unfoldable pub pick {ℓ} : {A : Type ℓ} → List A → List ℕ → Option (List (ℕ × A))
pick ys [] = some []
pick ys (id ∷ ids) = elim (get_elem? ys id) [
  | none ↦ none
  | some y ↦ elim (pick ys ids) [ none ↦ none | some rest ↦ some ((id, y) ∷ rest) ]
]

-- What a round meets: a command (`recv` in `Paused` has no command yet where it is `empty`), the
-- time, whether the two receivers still exist, and whether the channel of samples has a place (a send
-- waits for one).
pub record Round : Type 0 where
  pub command : TryRecv Command
  pub now : ℕ
  pub samples_open : Bool
  pub has_place : Bool
  pub notifications_open : Bool

module _ (fl : Floats) (waves : Waves fl) where
  open fl use {F64, add, mul}
  open waves use {sin, as_u64, mega, omega0, omega1, omega2, period, period_secs}

  pub record Thread : Type 0 where
    pub status : Status
    pub t : F64
    pub last_sampled_at : ℕ
    pub active_ids : List ℕ

  abbrev pub Step : Type 0
  Step = List (Effect F64) × Next Thread

  -- The end of a round that goes on.
  unfoldable pub settle : Thread → Round → Option Status → Step
  unfolding conclude
  settle t r wanted =
      conclude (λ s. record t { status = s }) t r.notifications_open (switch_status t.status wanted)
        []

  unfoldable pub waves_at : F64 → List F64
  waves_at t = sin (mul t omega0) ∷ sin (mul t omega1) ∷ sin (mul t omega2) ∷ []

  -- The sample of a round, where some signals are active.
  unfoldable pub send_sample : Thread → Round → Option (List (ℕ × F64)) → Step
  send_sample t r none = ([], failed_with invalid_signals)
  send_sample t r (some samples) =
      if r.samples_open
      then (if r.has_place
          then (sent (as_u64 (mul t.t mega), samples) ∷ [], continue t)
          else ([], blocked t))
      else ([], failed_with sample_receiver_gone)

  unfoldable pub take_sample : Thread → Round → Step
  unfolding pick waves_at send_sample
  take_sample t r =
      let t' = record t { t = add t.t period_secs; last_sampled_at = t.last_sampled_at + period } in
      elim t.active_ids [
        | [] ↦ ([], continue t')
        | _ ∷ _ ↦ send_sample t' r (pick (waves_at t'.t) t.active_ids)
      ]

  unfoldable pub in_sampling : Thread → Round → TryRecv Command → Step
  unfolding settle take_sample
  in_sampling t r (received (set_active ids)) = settle (record t { active_ids = ids }) r none
  in_sampling t r (received c) = settle t r (wanted_by sampling c)
  in_sampling t r empty = take_sample t r
  in_sampling t r disconnected = ([], failed_with command_channel_closed)

  unfoldable pub in_paused : Thread → Round → TryRecv Command → Step
  unfolding settle
  in_paused t r (received (set_active ids)) = settle (record t { active_ids = ids }) r none
  in_paused t r (received resume) =
      settle (record t { last_sampled_at = r.now }) r (wanted_by paused resume)
  in_paused t r (received c) = settle t r (wanted_by paused c)
  in_paused t r empty = ([], waits t)
  in_paused t r disconnected = ([], failed_with command_channel_closed)

  unfoldable pub round_in : Status → Thread → Round → Step
  unfolding in_sampling in_paused settle
  round_in initializing t r = settle (record t { last_sampled_at = r.now }) r (some sampling)
  round_in sampling t r = in_sampling t r r.command
  round_in paused t r = in_paused t r r.command
  round_in terminated t r = ([], finished)

  unfoldable pub round : Thread → Round → Step
  unfolding round_in
  round t r = round_in t.status t r
