-- ===== src/Fake/Handle.antt =====
-- The handle of the fake sampler: `impl Sampler for FakeSampler` of src/sampler/fakesampler.rs.
use ocdscope.Prelude.{ℕ, Bool, List, [], Outcome}
use ocdscope.Float.{Floats}
use ocdscope.Sampler.{initializing, Effect, TryRecv, Next, continue}
use ocdscope.Sampler.Channel.{Worker, tell, stop_worker}
use ocdscope.Sampler.Commands
use ocdscope.Sampler.Commands.{Command}
use ocdscope.Fake.{Waves, Round, Thread, round}

-- A round with the command that is taken from the channel.
unfoldable pub give : TryRecv Command → Round → Round
give c r = record r { command = c }

module _ (fl : Floats) (waves : Waves fl) where
  abbrev Sampler : Type 0
  Sampler = Worker Command (Thread fl waves)

  -- `FakeSampler::start`: a thread before its first round, with an empty channel.
  unfoldable pub start : ℕ → Sampler
  start now = record {
    queue = [];
    thread = continue (record {
      status = initializing;
      t = fl.nat_f64 0;
      last_sampled_at = now;
      active_ids = [];
    });
  }

  unfoldable pub set_active_signals : List ℕ → Sampler → Sampler
  set_active_signals ids w = tell (Commands.set_active ids) w

  unfoldable pub pause : Sampler → Sampler
  pause w = tell Commands.pause w

  unfoldable pub resume : Sampler → Sampler
  resume w = tell Commands.resume w

  -- In debug builds it is asserted that the thread is finished if it does not take the command.
  unfoldable pub stop :
      {E : Type 0}
      → Bool
      → Bool
      → List Round
      → Sampler
      → Outcome E (List (Effect fl.F64) × Next (Thread fl waves))
  unfolding give
  stop debug is_finished rs w =
      stop_worker (λ (t : Thread fl waves). t.status) give (round fl waves) debug is_finished
        Commands.stop rs w
