-- ===== src/Mem/Handle.antt =====
-- The handle of the memory sampler: `impl Sampler for MemSampler` of src/sampler/memsampler.rs.
use ocdscope.Prelude.{ℕ, Bool, List, Outcome}
use ocdscope.Float.{Floats}
use ocdscope.Sampler.{Effect, TryRecv, Next}
use ocdscope.Sampler.Channel.{Worker, tell, stop_worker}
use ocdscope.Sampler.Commands
use ocdscope.Sampler.Commands.{Command}
use ocdscope.Mem.Sampler.{Round, Thread, round}

-- A round with the command that is taken from the channel.
unfoldable pub give : TryRecv Command → Round → Round
give c r = record r { command = c }

unfoldable pub set_active_signals : List ℕ → Worker Command Thread → Worker Command Thread
set_active_signals ids w = tell (Commands.set_active ids) w

unfoldable pub pause : Worker Command Thread → Worker Command Thread
pause w = tell Commands.pause w

unfoldable pub resume : Worker Command Thread → Worker Command Thread
resume w = tell Commands.resume w

module _ (fl : Floats) where
  -- In debug builds it is asserted that the thread is finished if it does not take the command.
  unfoldable pub stop :
      {E : Type 0}
      → Bool
      → Bool
      → List Round
      → Worker Command Thread
      → Outcome E (List (Effect fl.F64) × Next Thread)
  unfolding give
  stop debug is_finished rs w =
      stop_worker (λ (t : Thread). t.status) give (round fl) debug is_finished Commands.stop rs w
