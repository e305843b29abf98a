-- ===== src/App/Starting.antt =====
-- A sampler of any kind, as the application (src/main.rs) starts it, from the start of its thread on.
use ocdscope.Prelude.{ℕ, List, []}
use ocdscope.Float.{Floats}
use ocdscope.Sampler.{Status, initializing, Effect, run}
use ocdscope.Sampler.Lifecycle.{statuses}
use ocdscope.Sampler.History.{Leads, end_status, Announces-Leads}
use ocdscope.Rtt.Packet.{RttScopePacketStructure}
use ocdscope.Rtt.Sampler.{Thread as RttThread, Round as RttRound, round as rtt_round}
use ocdscope.Rtt.Startup.{Startup as RttStartup, sampler_thread as rtt_thread}
use ocdscope.Rtt.Whole.{sampler_thread-Announces}
use ocdscope.Mem.Sampler.{Round as MemRound}
use ocdscope.Mem.Startup.{Startup as MemStartup, sampler_thread as mem_thread, sampler_thread-Leads}
use ocdscope.Fake.{Waves, Thread as FakeThread, Round as FakeRound, round as fake_round}
use ocdscope.Fake.Rounds.{fake-Announces}

-- A sampler of any kind from its start on, a `Box<dyn Sampler>`: by what its start and its rounds meet.
pub data Started (fl : Floats) : Type 0 where
  from_rtt : RttScopePacketStructure → RttStartup → List RttRound → Started fl
  memory : MemStartup → List MemRound → Started fl
  fake : (waves : Waves fl) → ℕ → List FakeRound → Started fl

module _ (fl : Floats) where
  open fl use {F64}

  -- The fake sampler before its first round.
  unfoldable pub fake_thread : (waves : Waves fl) → ℕ → FakeThread fl waves
  fake_thread waves now = record {
    status = initializing;
    t = fl.nat_f64 0;
    last_sampled_at = now;
    active_ids = [];
  }

  -- What the thread has sent, and the status in which it is, or has ended.
  unfoldable pub progress : Started fl → List (Effect F64) × Status
  unfolding fake_thread
  progress (from_rtt st x rs) =
      let (es, next) = rtt_thread fl st x rs in (es, end_status (λ (t : RttThread). t.status) next)
  progress (memory x rs) = mem_thread fl x rs
  progress (fake waves now rs) =
      let (es, next) = run (fake_round fl waves) rs (fake_thread waves now) in
      (es, end_status (λ (t : FakeThread fl waves). t.status) next)

  pub progress-Leads :
      (k : Started fl) → Leads initializing (statuses (progress k).0) (progress k).1
  unfolding progress fake_thread
  progress-Leads (from_rtt st x rs) =
      Announces-Leads (λ (t : RttThread). t.status) (rtt_round fl st) initializing
        (rtt_thread fl st x rs) (sampler_thread-Announces fl st x rs)
  progress-Leads (memory x rs) = sampler_thread-Leads fl x rs
  progress-Leads (fake waves now rs) =
      let t = fake_thread waves now in
      Announces-Leads (λ (t : FakeThread fl waves). t.status) (fake_round fl waves) initializing
        (run (fake_round fl waves) rs t) (fake-Announces fl waves rs t)
