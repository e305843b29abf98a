-- ===== src/Rtt/Stopping.antt =====
-- The RTT sampler (src/sampler/rttsampler.rs) heeds its commands, and ends when it is stopped.
use ocdscope.Prelude.{
  arith, suc, ◌∙◌, ap, ◌≢◌, ◌<◌, All, ◌+◌, ◌≤◌, ◌≡◌, refl, sym, inl, inr, Bool, true, false, Option,
  none, some, List, [], map, if◌then◌else◌, length, Outcome, ok, err, panic,
}
use mathlib.Core.Path.{subst}
use ocdscope.Text.{Bytes}
use ocdscope.Float.{Floats}
use ocdscope.Sampler.{
  same_status, still_running, Status, sampling, terminated, Failure, Effect, sent, received, empty,
  Next, finished, failed_with, switch_status,
}
use ocdscope.Sampler.Lifecycle.{Works, Wants}
use ocdscope.Sampler.Channel.{Worker, is_open}
use ocdscope.Rtt.Handle
use ocdscope.Rtt.Handle.{give}
use ocdscope.Sampler.Stopping.{
  IsBlocked, then_status, LeadsTo, HasEnded, IsObedient, conclude-LeadsTo, ends_with-LeadsTo,
  stop_worker-HasEnded,
}
use ocdscope.Rtt.Packet.{RttScopePacketStructure, packet_size}
use ocdscope.Rtt.Running.{drain-ends}
use ocdscope.Rtt.Sampler.{
  after_drain, ThreadCommand, stop, Thread, Round, obey, extend_buffer, Drained, measure, settle,
  after_sends, after_command, work, round_in, round,
}
use ocdscope.Rtt.Lifecycle.{obey-sampling, obey-paused, measure-status}

obey-Wants : (s : Status) (c : ThreadCommand) → Works s → Wants s (obey s c)
obey-Wants s c (inl e) = subst (λ s. Wants s (obey s c)) (sym e) (obey-sampling c)
obey-Wants s c (inr e) = subst (λ s. Wants s (obey s c)) (sym e) (obey-paused c)

obey-stop : (s : Status) → obey s stop ≡ some terminated
unfolding obey
obey-stop s = refl

abbrev pub status_of : Thread → Status
status_of t = t.status

module _ (fl : Floats) (st : RttScopePacketStructure) (some_size : 0 < packet_size st) where
  open fl use {F64}

  abbrev Leads : Status → List (Effect F64) × Next Thread → Type 0
  Leads = LeadsTo {V = F64} status_of ⊥

  settle-Leads :
      (s : Status) (t : Thread) (open_ : Bool) (wanted : Option Status) (es : List (Effect F64))
      → t.status ≡ s
      → Leads (then_status s wanted) (settle fl st t open_ (switch_status s wanted) es)
  unfolding settle
  settle-Leads s t open_ wanted es e =
      conclude-LeadsTo status_of ⊥ (λ s. record t { status = s }) t open_ es s wanted (λ s. refl) e

  -- There is a place for each sample.
  abbrev pub IsFair : Round → Type 0
  IsFair r = r.places ≡ none

  after_sends-Leads :
      (t : Thread) (r : Round) (wanted : Option Status) (d : Drained fl)
      → d.failure ≢ some still_running
      → Leads (then_status t.status wanted) (after_sends fl st t r wanted d)
  unfolding after_sends
  after_sends-Leads t r wanted d over = go d.failure refl
    where
      go :
          (f : Option Failure)
          → d.failure ≡ f
          → Leads (then_status t.status wanted) (after_sends fl st t r wanted d)
      go (some f) e =
          rw (after_sends, e)
            (ends_with-LeadsTo status_of ⊥ (then_status t.status wanted) t (map sent d.samples) f
              (λ g. over (e ∙ ap some g)))
      go none e =
          let t' = record t { buffer = d.rest; rate_measurement_samples_received = d.count } in
          rw (after_sends, e)
            (settle-Leads t.status (measure fl st t' r).0 r.notifications_open wanted _
              (measure-status fl st t' r).0)

  after_drain-Leads :
      (t : Thread) (r : Round) (wanted : Option Status) (d : Drained fl)
      → IsFair r
      → d.failure ≢ some still_running
      → Leads (then_status t.status wanted) (after_drain fl st t r wanted d)
  unfolding after_drain after_sends measure
  after_drain-Leads t r wanted d place over = rw place (after_sends-Leads t r wanted d over)

  after_command-Leads :
      (t : Thread) (r : Round) (wanted : Option Status)
      → IsFair r
      → Leads (then_status t.status wanted) (after_command fl st t r wanted)
  unfolding after_command
  after_command-Leads t r wanted place = go (extend_buffer t.buffer r.reading) refl
    where
      go :
          (b : Outcome Failure Bytes)
          → extend_buffer t.buffer r.reading ≡ b
          → Leads (then_status t.status wanted) (after_command fl st t r wanted)
      go (ok b) e =
          rw (after_command, e)
            (after_drain-Leads t r wanted _ place (
              drain-ends fl st (suc (length b)) (same_status t.status sampling) r.samples_open b
                t.rate_measurement_samples_received some_size (omega arith)))
      go (err f) e = rw (after_command, e) tt
      go panic e = rw (after_command, e) tt

  ended :
      (b : Bool) (f : Failure)
      → HasEnded {V = F64} status_of ⊥ ([], if b then finished else failed_with f)
  ended true f = tt
  ended false f = tt

  abbrev Heeds : Thread → Round → ThreadCommand → Status → Type 0
  Heeds t r c s =
      Leads (then_status t.status (obey t.status c)) (round_in fl st s t (give (received c) r))

  round-IsObedient : IsObedient {V = F64} status_of ⊥ give (round fl st) obey IsFair
  unfolding round round_in work give then_status
  round-IsObedient = record {
    begins = λ t r _ e.
        subst (λ s. Leads sampling (round_in fl st s t (give empty r))) (sym e)
          (settle-Leads t.status (record t { previous_rate_measurement = r.now })
            r.notifications_open (some sampling) [] refl);
    heeds = λ t r c place w. elim w [
      | inl e ↦ subst (Heeds t r c) (sym e) (after_command-Leads t (give (received c) r) _ place)
      | inr e ↦ subst (Heeds t r c) (sym e) (after_command-Leads t (give (received c) r) _ place)
    ];
    ends = λ t r _ e.
        subst (λ s. HasEnded {V = F64} status_of ⊥ (round_in fl st s t (give empty r))) (sym e)
          (ended r.server_stops _);
  }

  -- Where a packet has a byte at least, stopping the RTT sampler returns, whatever commands are still in
  -- its channel and whatever it reads, unless its thread is blocked as it sends a sample, if the channel
  -- of samples has a place for each one in the rounds to come: with `Stop` behind the commands, the
  -- thread has ended after at most as many rounds as there are commands, and three more. In debug
  -- builds, a thread that takes no command any more must be finished.
  pub rtt-stop_ends :
      {E : Type 0} (debug is_finished : Bool) (rs : List Round) (w : Worker ThreadCommand Thread)
      → (debug ≡ true → is_open w.thread ≡ false → is_finished ≡ true)
      → ¬ IsBlocked w.thread
      → length w.queue + 3 ≤ length rs
      → All IsFair rs
      → (x : List (Effect F64) × Next Thread) × (Handle.stop fl st {E = E} debug is_finished rs w
          ≡ ok x)
        × HasEnded {V = F64} status_of ⊥ x
  unfolding Handle.stop
  rtt-stop_ends debug is_finished rs w h free enough fair =
      stop_worker-HasEnded status_of ⊥ give (round fl st) obey IsFair round-IsObedient stop
        obey-Wants (λ s _. obey-stop s) debug is_finished rs w h free enough fair
