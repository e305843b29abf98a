-- ===== src/Fake/Tests.antt =====
-- The theorems on the fake sampler at concrete inputs.
use ocdscope.Prelude.{◌≤◌, length, ◌+◌, false, ok, arith}
use ocdscope.Sampler.{Effect, Next}
use ocdscope.Sampler.Stopping.{IsBlocked, HasEnded}
use ocdscope.Sampler.Channel.{Worker, is_open, send, tell}
use ocdscope.Fake.Handle
use ocdscope.Fake.Stopping.{fake-stop_ends}
use ocdscope.Prelude.{ℕ, ◌≡◌, true, Option, none, some, List, [], ◌∷◌}
use ocdscope.Float.Sample.{numbers}
use ocdscope.Sampler.{initializing, sampling, received, empty, run}
use ocdscope.Sampler.Commands.{Command, set_active, pause, stop}
use ocdscope.Sampler.History.{Announces}
use ocdscope.Fake.{Waves, Round, Thread, round}
use ocdscope.Fake.Rounds.{status_of, fake-Announces}

abbrev whole : Option ℕ → ℕ
whole none = 0
whole (some n) = n

abbrev waves : Waves numbers
waves = record {
  sin = λ x. x;
  as_u64 = whole;
  mega = some 1_000_000;
  omega0 = some 1;
  omega1 = some 10;
  omega2 = some 100;
  period = 1_000_000_000;
  period_secs = some 1;
}

abbrev thread : List ℕ → Thread numbers waves
thread ids = record { status = sampling; t = some 0; last_sampled_at = 0; active_ids = ids }

abbrev stop_round : Round
stop_round = record {
  command = received stop;
  now = 5;
  samples_open = true;
  has_place = true;
  notifications_open = true;
}

abbrev other_round : Round
other_round = record stop_round { command = empty }

abbrev started : Thread numbers waves
started = record (thread []) { status = initializing }

abbrev rounds : List Round
rounds =
    other_round
    ∷ record other_round { command = received (set_active (1 ∷ [])) }
    ∷ other_round
    ∷ record other_round { command = received pause }
    ∷ stop_round
    ∷ other_round
    ∷ []

fake-Announces_example :
    Announces
      (status_of numbers waves)
      (round numbers waves)
      initializing
      (run (round numbers waves) rounds started)
fake-Announces_example = fake-Announces numbers waves rounds started

-- A sampler that is told three commands after its start.
told : Worker Command (Thread numbers waves)
unfolding Handle.start Handle.set_active_signals Handle.pause Handle.resume
told = Handle.resume numbers waves (
    Handle.pause numbers waves
      (Handle.set_active_signals numbers waves (2 ∷ []) (Handle.start numbers waves 0)))

told-is_open : is_open told.thread ≡ false → ⊥
unfolding told Handle.start tell send is_open
told-is_open e = cc

told-free : ¬ IsBlocked told.thread
unfolding told Handle.start tell send is_open
told-free e = e

told-enough : length told.queue + 3 ≤ length rounds
unfolding told Handle.start tell send is_open
told-enough = omega arith

fake-stop_ends_example :
    (x : List (Effect (Option ℕ)) × Next (Thread numbers waves)) × (Handle.stop numbers waves
        {E = Unit {0}} true false rounds told
      ≡ ok x)
    × HasEnded (status_of numbers waves) ⊥ x
fake-stop_ends_example =
    fake-stop_ends numbers waves true false rounds told (λ _ e. absurd (told-is_open e)) told-free
      told-enough
