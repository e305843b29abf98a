-- ===== src/Mem/Stopping.antt =====
-- The memory sampler (src/sampler/memsampler.rs) heeds its commands, and ends when it is stopped.
use ocdscope.Prelude.{
  All, ℕ, ◌+◌, ◌≤◌, ◌≡◌, refl, sym, inl, inr, Bool, true, false, Option, none, some, List, [], ◌∷◌,
  length, ok, err, panic, Bool-cases,
}
use mathlib.Core.Path.{subst}
use ocdscope.Text.{codes}
use ocdscope.Float.{Floats}
use ocdscope.Gdb.Packet.{Result}
use ocdscope.Gdb.Remote.{send_packet}
use ocdscope.Sampler.{
  Status, initializing, sampling, paused, terminated, Effect, sent, received, empty, Next,
  switch_status, conclude,
}
use ocdscope.Sampler.Commands.{
  Command, set_active, pause, resume, stop, wanted_by, wanted_by-Wants, wanted_by-stop,
}
use ocdscope.Sampler.Channel.{Worker, is_open}
use ocdscope.Mem.Handle
use ocdscope.Mem.Handle.{give}
use ocdscope.Sampler.Stopping.{
  IsBlocked, then_status, LeadsTo, HasEnded, IsObedient, conclude-LeadsTo, stop_worker-HasEnded,
}
use ocdscope.Mem.Session.{Session, waiting, ended, Gathered}
use ocdscope.Mem.Sampler.{
  Round, Thread, settle, send_sample, after_gather, take_sample, in_sampling, in_paused,
  in_initializing, round_in, round,
}
use ocdscope.Mem.Rounds.{status_of}

module _ (fl : Floats) where
  open fl use {F64}

  -- A round may end in a wait for the GDB server.
  abbrev Leads : Status → List (Effect F64) × Next Thread → Type 0
  Leads = LeadsTo {V = F64} status_of (Unit {0})

  -- There is a place for the sample.
  abbrev pub IsFair : Round → Type 0
  IsFair r = r.has_place ≡ true

  settle-Leads :
      (s : Status) (t : Thread) (r : Round) (wanted : Option Status) (es : List (Effect F64))
      → t.status ≡ s
      → Leads (then_status s wanted) (settle fl t r wanted es)
  unfolding settle
  settle-Leads s t r wanted es e =
      subst
        (λ z. Leads (then_status s wanted) (
          conclude (λ s. record t { status = s }) t r.notifications_open (switch_status z wanted)
            es))
        (sym e)
        (conclude-LeadsTo status_of (Unit {0}) (λ s. record t { status = s }) t r.notifications_open
          es s wanted (λ s. refl) e)

  send_sample-Leads :
      (s : Status) (t : Thread) (r : Round) (wanted : Option Status) (samples : List (ℕ × F64))
      (time : Session ℕ)
      → IsFair r
      → t.status ≡ s
      → Leads (then_status s wanted) (send_sample fl t r wanted samples time)
  unfolding send_sample
  send_sample-Leads s t r wanted samples (ok time) place e = elim (Bool-cases r.samples_open) [
    | inl h ↦ rw (h, place) (settle-Leads s t r wanted (sent (time, samples) ∷ []) e)
    | inr h ↦ rw h tt
  ]
  send_sample-Leads s t r wanted samples (err h) place e = tt
  send_sample-Leads s t r wanted samples panic place e = tt

  after_gather-Leads :
      (s : Status) (t : Thread) (r : Round) (wanted : Option Status) (x : Session (Gathered fl))
      → IsFair r
      → t.status ≡ s
      → Leads (then_status s wanted) (after_gather fl t r wanted x)
  unfolding after_gather
  after_gather-Leads s t r wanted (err waiting) place e = tt
  after_gather-Leads s t r wanted (err (ended f)) place e = tt
  after_gather-Leads s t r wanted panic place e = tt
  after_gather-Leads s t r wanted (ok x) place e = go x.samples refl
    where
      go :
          (samples : List (ℕ × F64))
          → x.samples ≡ samples
          → Leads (then_status s wanted) (after_gather fl t r wanted (ok x))
      go [] h = rw (after_gather, h) (settle-Leads s (record t { client = x.client }) r wanted [] e)
      go (y ∷ ys) h =
          rw (after_gather, h)
            (send_sample-Leads s (record t { client = x.client }) r wanted _ _ place e)

  in_sampling-Leads :
      (t : Thread) (r : Round) (c : Command)
      → IsFair r
      → t.status ≡ sampling
      → Leads (then_status sampling (wanted_by sampling c)) (in_sampling fl t r (received c))
  unfolding in_sampling take_sample wanted_by
  in_sampling-Leads t r (set_active a) place e = after_gather-Leads sampling _ r none _ place e
  in_sampling-Leads t r pause place e = after_gather-Leads sampling _ r (some paused) _ place e
  in_sampling-Leads t r resume place e = after_gather-Leads sampling _ r none _ place e
  in_sampling-Leads t r stop place e = after_gather-Leads sampling _ r (some terminated) _ place e

  in_paused-Leads :
      (t : Thread) (r : Round) (c : Command)
      → t.status ≡ paused
      → Leads (then_status paused (wanted_by paused c)) (in_paused fl t r (received c))
  unfolding in_paused wanted_by
  in_paused-Leads t r (set_active a) e = settle-Leads paused _ r none [] e
  in_paused-Leads t r pause e = settle-Leads paused t r none [] e
  in_paused-Leads t r resume e = settle-Leads paused _ r (some sampling) [] e
  in_paused-Leads t r stop e = settle-Leads paused t r (some terminated) [] e

  in_initializing-Leads :
      (t : Thread) (r : Round) (x : Result _)
      → t.status ≡ initializing
      → Leads sampling (in_initializing fl t r x)
  unfolding in_initializing then_status
  in_initializing-Leads t r (ok at) e = settle-Leads initializing _ r (some sampling) [] e
  in_initializing-Leads t r (err g) e = tt
  in_initializing-Leads t r panic e = tt

  abbrev Heeds : Thread → Round → Command → Status → Type 0
  Heeds t r c s = Leads (then_status s (wanted_by s c)) (round_in fl s t (give (received c) r))

  round-IsObedient : IsObedient {V = F64} status_of (Unit {0}) give (round fl) wanted_by IsFair
  unfolding round round_in give then_status
  round-IsObedient = record {
    begins = λ t r _ e.
        subst (λ s. Leads sampling (round_in fl s t (give empty r))) (sym e)
          (in_initializing-Leads t (give empty r) (send_packet t.client (codes "c") r.sending) e);
    heeds = λ t r c place w. elim w [
      | inl e ↦ subst (Heeds t r c) (sym e) (in_sampling-Leads t (give (received c) r) c place e)
      | inr e ↦ subst (Heeds t r c) (sym e) (in_paused-Leads t (give (received c) r) c e)
    ];
    ends = λ t r _ e.
        subst (λ s. HasEnded {V = F64} status_of (Unit {0}) (round_in fl s t (give empty r)))
          (sym e) tt;
  }

  -- Stopping the memory sampler returns, whatever commands are still in its channel and whatever the GDB
  -- server does, unless its thread is blocked as it sends a sample, if the channel of samples has a
  -- place in each round to come (while it samples, a round sends one also with a command): with `Stop`
  -- behind the commands, the thread has ended after at most as many rounds as there are commands, and
  -- three more, unless one of them waits for the server. In debug builds, a thread that takes no
  -- command any more must be finished.
  pub mem-stop_ends :
      {E : Type 0} (debug is_finished : Bool) (rs : List Round) (w : Worker Command Thread)
      → (debug ≡ true → is_open w.thread ≡ false → is_finished ≡ true)
      → ¬ IsBlocked w.thread
      → length w.queue + 3 ≤ length rs
      → All IsFair rs
      → (x : List (Effect F64) × Next Thread) × (Handle.stop fl {E = E} debug is_finished rs w
          ≡ ok x)
        × HasEnded {V = F64} status_of (Unit {0}) x
  unfolding Handle.stop
  mem-stop_ends debug is_finished rs w h free enough fair =
      stop_worker-HasEnded status_of (Unit {0}) give (round fl) wanted_by IsFair round-IsObedient
        stop wanted_by-Wants (λ s _. wanted_by-stop s) debug is_finished rs w h free enough fair
