-- ===== src/Sampler/Commands.antt =====
-- The commands that the memory sampler and the fake sampler take: `ThreadCommand` of
-- src/sampler/memsampler.rs (`SetActiveAddresses`) and of src/sampler/fakesampler.rs
-- (`SetActiveSignals`).
use mathlib.Core.Path.{subst}
use ocdscope.Prelude.{ℕ, ◌≡◌, refl, sym, inl, inr, Option, none, some, List}
use ocdscope.Sampler.{Status, sampling, paused, terminated}
use ocdscope.Sampler.Lifecycle.{Works, Wants, stops, stops_paused, pauses, resumes}

pub data Command : Type 0 where
  set_active : List ℕ → Command
  pause resume stop : Command

-- The status that a command asks for; a command that does not fit the status is only logged.
unfoldable pub wanted_by : Status → Command → Option Status
wanted_by status stop = some terminated
wanted_by sampling pause = some paused
wanted_by paused resume = some sampling
wanted_by _ _ = none

pub wanted_by-sampling : (c : Command) → Wants sampling (wanted_by sampling c)
unfolding wanted_by
wanted_by-sampling (set_active ids) = tt
wanted_by-sampling stop = stops
wanted_by-sampling pause = pauses
wanted_by-sampling resume = tt

pub wanted_by-paused : (c : Command) → Wants paused (wanted_by paused c)
unfolding wanted_by
wanted_by-paused (set_active ids) = tt
wanted_by-paused stop = stops_paused
wanted_by-paused pause = tt
wanted_by-paused resume = resumes

pub wanted_by-Wants : (s : Status) (c : Command) → Works s → Wants s (wanted_by s c)
wanted_by-Wants s c (inl e) = subst (λ s. Wants s (wanted_by s c)) (sym e) (wanted_by-sampling c)
wanted_by-Wants s c (inr e) = subst (λ s. Wants s (wanted_by s c)) (sym e) (wanted_by-paused c)

pub wanted_by-stop : (s : Status) → wanted_by s stop ≡ some terminated
unfolding wanted_by
wanted_by-stop s = refl
