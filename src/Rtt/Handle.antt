-- ===== src/Rtt/Handle.antt =====
-- The handle of the RTT sampler: `impl Sampler for RTTSampler` of src/sampler/rttsampler.rs.
use ocdscope.Prelude.{ℕ, Bool, List, Outcome}
use ocdscope.Float.{Floats}
use ocdscope.Sampler.{Effect, TryRecv, Next}
use ocdscope.Sampler.Channel.{Worker, tell, stop_worker}
use ocdscope.Rtt.Packet.{RttScopePacketStructure}
use ocdscope.Rtt.Sampler
use ocdscope.Rtt.Sampler.{ThreadCommand, Round, Thread, round}

-- A round with the command that is taken from the channel.
unfoldable pub give : TryRecv ThreadCommand → Round → Round
give c r = record r { command = c }

-- The sampler does not decide which signals it receives.
unfoldable pub set_active_signals :
    List ℕ → Worker ThreadCommand Thread → Worker ThreadCommand Thread
set_active_signals ids w = w

unfoldable pub pause : Worker ThreadCommand Thread → Worker ThreadCommand Thread
pause w = tell Sampler.pause w

unfoldable pub resume : Worker ThreadCommand Thread → Worker ThreadCommand Thread
resume w = tell Sampler.resume w

module _ (fl : Floats) (st : RttScopePacketStructure) where
  -- In debug builds it is asserted that the thread is finished if it does not take the command.
  unfoldable pub stop :
      {E : Type 0}
      → Bool
      → Bool
      → List Round
      → Worker ThreadCommand Thread
      → Outcome E (List (Effect fl.F64) × Next Thread)
  unfolding give
  stop debug is_finished rs w =
      stop_worker (λ (t : Thread). t.status) give (round fl st) debug is_finished Sampler.stop rs w
