-- ===== src/Fake/Stopping.antt =====
-- The fake sampler (src/sampler/fakesampler.rs) heeds its commands, and ends when it is stopped.
use ocdscope.Prelude.{
  ◌∷◌, All, ◌+◌, ◌≤◌, ◌≡◌, refl, sym, inl, inr, Bool, true, false, Option, none, some, List, [],
  length, ok,
}
use mathlib.Core.Path.{subst}
use ocdscope.Float.{Floats}
use ocdscope.Sampler.{
  Status, initializing, sampling, paused, terminated, Effect, received, empty, Next, switch_status,
  conclude,
}
use ocdscope.Sampler.Commands.{
  Command, set_active, pause, resume, stop, wanted_by, wanted_by-Wants, wanted_by-stop,
}
use ocdscope.Sampler.Channel.{Worker, is_open}
use ocdscope.Fake.Handle
use ocdscope.Fake.Handle.{give}
use ocdscope.Sampler.Stopping.{
  IsBlocked, then_status, LeadsTo, HasEnded, IsObedient, conclude-LeadsTo, stop_worker-HasEnded,
}
use ocdscope.Fake.{Waves, Round, Thread, settle, in_sampling, in_paused, round_in, round}
use ocdscope.Fake.Rounds.{status_of}

module _ (fl : Floats) (waves : Waves fl) where
  open fl use {F64}

  abbrev Leads : Status → List (Effect F64) × Next (Thread fl waves) → Type 0
  Leads = LeadsTo {V = F64} (status_of fl waves) ⊥

  settle-Leads :
      (s : Status) (t : Thread fl waves) (r : Round) (wanted : Option Status)
      → t.status ≡ s
      → Leads (then_status s wanted) (settle fl waves t r wanted)
  unfolding settle
  settle-Leads s t r wanted e =
      subst
        (λ z. Leads (then_status s wanted) (
          conclude (λ s. record t { status = s }) t r.notifications_open (switch_status z wanted)
            []))
        (sym e)
        (conclude-LeadsTo (status_of fl waves) ⊥ (λ s. record t { status = s }) t
          r.notifications_open [] s wanted (λ s. refl) e)

  in_sampling-Leads :
      (t : Thread fl waves) (r : Round) (c : Command)
      → t.status ≡ sampling
      → Leads (then_status sampling (wanted_by sampling c)) (in_sampling fl waves t r (received c))
  unfolding in_sampling wanted_by
  in_sampling-Leads t r (set_active ids) e = settle-Leads sampling _ r none e
  in_sampling-Leads t r pause e = settle-Leads sampling t r (some paused) e
  in_sampling-Leads t r resume e = settle-Leads sampling t r none e
  in_sampling-Leads t r stop e = settle-Leads sampling t r (some terminated) e

  in_paused-Leads :
      (t : Thread fl waves) (r : Round) (c : Command)
      → t.status ≡ paused
      → Leads (then_status paused (wanted_by paused c)) (in_paused fl waves t r (received c))
  unfolding in_paused wanted_by
  in_paused-Leads t r (set_active ids) e = settle-Leads paused _ r none e
  in_paused-Leads t r pause e = settle-Leads paused t r none e
  in_paused-Leads t r resume e = settle-Leads paused _ r (some sampling) e
  in_paused-Leads t r stop e = settle-Leads paused t r (some terminated) e

  abbrev Heeds : Thread fl waves → Round → Command → Status → Type 0
  Heeds t r c s =
      Leads (then_status s (wanted_by s c)) (round_in fl waves s t (give (received c) r))

  round-IsObedient :
      IsObedient {V = F64} (status_of fl waves) ⊥ give (round fl waves) wanted_by (λ _. Unit {0})
  unfolding round round_in give then_status
  round-IsObedient = record {
    begins = λ t r _ e.
        subst (λ s. Leads sampling (round_in fl waves s t (give empty r))) (sym e)
          (settle-Leads initializing (record t { last_sampled_at = r.now }) (give empty r)
            (some sampling) e);
    heeds = λ t r c _ w. elim w [
      | inl e ↦ subst (Heeds t r c) (sym e) (in_sampling-Leads t (give (received c) r) c e)
      | inr e ↦ subst (Heeds t r c) (sym e) (in_paused-Leads t (give (received c) r) c e)
    ];
    ends = λ t r _ e.
        subst
          (λ s. HasEnded {V = F64} (status_of fl waves) ⊥ (round_in fl waves s t (give empty r)))
          (sym e) tt;
  }

  all_fair : (rs : List Round) → All (λ _. Unit {0}) rs
  all_fair [] = tt
  all_fair (r ∷ rs) = (tt, all_fair rs)

  -- Stopping the fake sampler returns, whatever commands are still in its channel, unless its thread is
  -- blocked as it sends a sample: with `Stop` behind the commands, the thread has ended after at most
  -- as many rounds as there are commands, and three more, also where the channel of samples has no
  -- place, as no sample is sent in them. In debug builds, a thread that takes no command any more must
  -- be finished.
  pub fake-stop_ends :
      {E : Type 0} (debug is_finished : Bool) (rs : List Round)
      (w : Worker Command (Thread fl waves))
      → (debug ≡ true → is_open w.thread ≡ false → is_finished ≡ true)
      → ¬ IsBlocked w.thread
      → length w.queue + 3 ≤ length rs
      → (x : List (Effect F64) × Next (Thread fl waves)) × (Handle.stop fl waves {E = E} debug
            is_finished rs w
          ≡ ok x)
        × HasEnded (status_of fl waves) ⊥ x
  unfolding Handle.stop
  fake-stop_ends debug is_finished rs w h free enough =
      stop_worker-HasEnded (status_of fl waves) ⊥ give (round fl waves) wanted_by (λ _. Unit {0})
        round-IsObedient stop wanted_by-Wants (λ s _. wanted_by-stop s) debug is_finished rs w h
        free enough (all_fair rs)
