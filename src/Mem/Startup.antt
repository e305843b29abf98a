-- ===== src/Mem/Startup.antt =====
-- The whole thread of the memory sampler (src/sampler/memsampler.rs): the start of `sampler_thread`, its
-- loop, and the report of its error by the closure that `start` spawns.
use ocdscope.Prelude.{
  ℕ, ◌≡◌, refl, inr, List, [], Outcome, ok, err, panic, Ensures, Ensures-Unit, Ensures->>=,
  Ensures-eq_ok,
}
use mathlib.Core.Path.{subst}
use ocdscope.Ttstream.{SysResult}
use ocdscope.Telnet.Lines
use ocdscope.Float.{Floats}
use ocdscope.Sampler.{Status, initializing, terminated, Effect, report, run}
use ocdscope.Sampler.Lifecycle.{statuses}
use ocdscope.Sampler.History.{Leads, end_status, Announces-Leads}
use ocdscope.Mem.Session.{Session, waiting, ended, Opening, open_session, maximize_adapter_speed}
use ocdscope.Mem.Sampler.{Thread, Round, start_thread, round}
use ocdscope.Mem.Rounds.{status_of, mem-Announces}

-- What the start of the thread meets: the connection to OpenOCD, of which the highest speed is asked,
-- and that to the GDB server; and the times at the start of the loop, and between two samples.
pub record Startup : Type 0 where
  pub asked_at : ℕ
  pub openocd : SysResult (List Lines.Poll × List Lines.Written)
  pub opening : Opening
  pub now : ℕ
  pub start : ℕ
  pub period : ℕ

module _ (fl : Floats) where
  open fl use {F64}

  -- What a thread has sent, and the status in which it is, or has ended.
  abbrev pub Progress : Type 0
  Progress = List (Effect F64) × Status

  unfoldable pub loop_after : List Round → Session Thread → Progress
  unfolding report
  loop_after rs (ok t) = let (es, next) = run (round fl) rs t in (es, end_status status_of next)
  loop_after rs (err waiting) = ([], initializing)
  loop_after rs (err (ended f)) = (report f, terminated)
  loop_after rs panic = ([], initializing)

  -- The start goes on whatever comes of the speed, but where it waits or panics.
  unfoldable pub after_speed : Startup → List Round → Outcome Lines.Stop ℕ → Progress
  unfolding loop_after start_thread
  after_speed x rs (ok speed) = loop_after rs (start_thread x.opening x.now x.start x.period)
  after_speed x rs (err (Lines.raised e)) =
      loop_after rs (start_thread x.opening x.now x.start x.period)
  after_speed x rs (err Lines.waiting) = ([], initializing)
  after_speed x rs (err Lines.exhausted) = ([], initializing)
  after_speed x rs panic = ([], initializing)

  unfoldable pub sampler_thread : Startup → List Round → Progress
  unfolding after_speed
  sampler_thread x rs = after_speed x rs (maximize_adapter_speed x.asked_at x.openocd)

  abbrev IsTold : Progress → Type 0
  IsTold (es, s) = Leads initializing (statuses es) s

  loop_after-IsTold :
      (rs : List Round) (b : Session Thread)
      → ((t : Thread) → b ≡ ok t → t.status ≡ initializing)
      → IsTold (loop_after rs b)
  unfolding loop_after statuses report
  loop_after-IsTold rs (ok t) h =
      subst
        (λ s.
          Leads s (statuses (run (round fl) rs t).0) (end_status status_of (run (round fl) rs t).1))
        (h t refl)
        (Announces-Leads status_of (round fl) t.status (run (round fl) rs t)
          (mem-Announces fl rs t))
  loop_after-IsTold rs (err waiting) h = (tt, refl)
  loop_after-IsTold rs (err (ended f)) h = ((inr refl, tt), refl)
  loop_after-IsTold rs panic h = (tt, refl)

  starts_initializing :
      (o : Opening) (now start period : ℕ)
      → Ensures (start_thread o now start period) (λ (t : Thread). t.status ≡ initializing)
  unfolding start_thread
  starts_initializing o now start period =
      Ensures->>= (λ _. Unit {0}) (λ (t : Thread). t.status ≡ initializing) (open_session o) _
        (Ensures-Unit (open_session o)) (λ client _. refl)

  start_thread-initializing :
      (o : Opening) (now start period : ℕ) (t : Thread)
      → start_thread o now start period ≡ ok t
      → t.status ≡ initializing
  start_thread-initializing o now start period t e =
      Ensures-eq_ok (λ (t : Thread). t.status ≡ initializing) (start_thread o now start period)
        (starts_initializing o now start period) e

  after_speed-IsTold :
      (x : Startup) (rs : List Round) (r : Outcome Lines.Stop ℕ) → IsTold (after_speed x rs r)
  unfolding after_speed statuses
  after_speed-IsTold x rs (ok speed) =
      loop_after-IsTold rs _ (start_thread-initializing x.opening x.now x.start x.period)
  after_speed-IsTold x rs (err (Lines.raised e)) =
      loop_after-IsTold rs _ (start_thread-initializing x.opening x.now x.start x.period)
  after_speed-IsTold x rs (err Lines.waiting) = (tt, refl)
  after_speed-IsTold x rs (err Lines.exhausted) = (tt, refl)
  after_speed-IsTold x rs panic = (tt, refl)

  -- From its start on, the statuses that the thread has announced lead to the one in which it is.
  pub sampler_thread-Leads :
      (x : Startup) (rs : List Round)
      → Leads initializing (statuses (sampler_thread x rs).0) (sampler_thread x rs).1
  unfolding sampler_thread
  sampler_thread-Leads x rs = after_speed-IsTold x rs (maximize_adapter_speed x.asked_at x.openocd)
