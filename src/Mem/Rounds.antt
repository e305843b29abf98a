-- ===== src/Mem/Rounds.antt =====
-- The status of the thread of src/sampler/memsampler.rs.
use ocdscope.Prelude.{
  ℕ, ◌≡◌, refl, sym, Option, some, none, List, [], ◌∷◌, Bool-cases, inl, inr, ok, err, panic,
}
use mathlib.Core.Path.{subst}
use ocdscope.Ttstream.{Timestamp}
use ocdscope.Float.{Floats}
use ocdscope.Gdb.Packet.{Result}
use ocdscope.Sampler.{
  Status, initializing, sampling, paused, terminated, Effect, TryRecv, received, empty,
  disconnected, switch_status, conclude, run,
}
use ocdscope.Sampler.Commands.{
  Command, set_active, pause, resume, stop, wanted_by-sampling, wanted_by-paused,
}
use ocdscope.Sampler.Lifecycle.{starts, Wants, statuses, IsLawful, conclude-IsLawful}
use ocdscope.Sampler.History.{Announces, run-Announces}
use ocdscope.Mem.Session.{waiting, ended, Session, Gathered}
use ocdscope.Mem.Sampler.{
  Round, Thread, Step, settle, send_sample, after_gather, take_sample, in_sampling, in_paused,
  in_initializing, round_in, round,
}

abbrev pub status_of : Thread → Status
status_of t = t.status

module _ (fl : Floats) where
  open fl use {F64}

  abbrev LawfulStep : Status → Step fl → Type 0
  LawfulStep = IsLawful {V = F64} status_of

  settle-IsLawful :
      (s : Status) (t : Thread) (r : Round) (wanted : Option Status) (es : List (Effect F64))
      → t.status ≡ s
      → Wants s wanted
      → statuses es ≡ []
      → LawfulStep s (settle fl t r wanted es)
  unfolding settle
  settle-IsLawful s t r wanted es e w quiet =
      subst
        (λ z. LawfulStep s (
          conclude (λ s. record t { status = s }) t r.notifications_open (switch_status z wanted)
            es))
        (sym e)
        (conclude-IsLawful status_of (λ s. record t { status = s }) t r.notifications_open es
          (λ s. refl) quiet s wanted e w)

  send_sample-IsLawful :
      (s : Status) (t : Thread) (r : Round) (wanted : Option Status) (samples : List (ℕ × F64))
      (time : Session ℕ)
      → t.status ≡ s
      → Wants s wanted
      → LawfulStep s (send_sample fl t r wanted samples time)
  unfolding send_sample statuses
  send_sample-IsLawful s t r wanted samples (ok time) e w = elim (Bool-cases r.samples_open) [
    | inl h ↦ elim (Bool-cases r.has_place) [
      | inl k ↦ rw (h, k) (settle-IsLawful s t r wanted _ e w refl)
      | inr k ↦ rw (h, k) (e, refl)
    ]
    | inr h ↦ rw h refl
  ]
  send_sample-IsLawful s t r wanted samples (err h) e w = (e, refl)
  send_sample-IsLawful s t r wanted samples panic e w = (e, refl)

  after_gather-IsLawful :
      (s : Status) (t : Thread) (r : Round) (wanted : Option Status) (x : Session (Gathered fl))
      → t.status ≡ s
      → Wants s wanted
      → LawfulStep s (after_gather fl t r wanted x)
  unfolding after_gather statuses
  after_gather-IsLawful s t r wanted (err waiting) e w = (e, refl)
  after_gather-IsLawful s t r wanted (err (ended f)) e w = refl
  after_gather-IsLawful s t r wanted panic e w = (e, refl)
  after_gather-IsLawful s t r wanted (ok x) e w = go x.samples refl
    where
      go :
          (samples : List (ℕ × F64))
          → x.samples ≡ samples
          → LawfulStep s (after_gather fl t r wanted (ok x))
      go [] h =
          rw (after_gather, h)
            (settle-IsLawful s (record t { client = x.client }) r wanted [] e w refl)
      go (y ∷ ys) h =
          rw (after_gather, h)
            (send_sample-IsLawful s (record t { client = x.client }) r wanted _ _ e w)

  take_sample-IsLawful :
      (t : Thread) (r : Round) (wanted : Option Status)
      → t.status ≡ sampling
      → Wants sampling wanted
      → LawfulStep sampling (take_sample fl t r wanted)
  unfolding take_sample
  take_sample-IsLawful t r wanted e w = after_gather-IsLawful sampling _ r wanted _ e w

  in_sampling-IsLawful :
      (t : Thread) (r : Round) (c : TryRecv Command)
      → t.status ≡ sampling
      → LawfulStep sampling (in_sampling fl t r c)
  unfolding in_sampling statuses
  in_sampling-IsLawful t r disconnected e = refl
  in_sampling-IsLawful t r empty e = take_sample-IsLawful t r none e tt
  in_sampling-IsLawful t r (received (set_active a)) e = take_sample-IsLawful _ r none e tt
  in_sampling-IsLawful t r (received pause) e =
      take_sample-IsLawful t r _ e (wanted_by-sampling pause)
  in_sampling-IsLawful t r (received resume) e =
      take_sample-IsLawful t r _ e (wanted_by-sampling resume)
  in_sampling-IsLawful t r (received stop) e =
      take_sample-IsLawful t r _ e (wanted_by-sampling stop)

  in_paused-IsLawful :
      (t : Thread) (r : Round) (c : TryRecv Command)
      → t.status ≡ paused
      → LawfulStep paused (in_paused fl t r c)
  unfolding in_paused statuses
  in_paused-IsLawful t r disconnected e = refl
  in_paused-IsLawful t r empty e = (e, refl)
  in_paused-IsLawful t r (received (set_active a)) e = settle-IsLawful paused _ r none [] e tt refl
  in_paused-IsLawful t r (received pause) e =
      settle-IsLawful paused t r _ [] e (wanted_by-paused pause) refl
  in_paused-IsLawful t r (received resume) e =
      settle-IsLawful paused _ r _ [] e (wanted_by-paused resume) refl
  in_paused-IsLawful t r (received stop) e =
      settle-IsLawful paused t r _ [] e (wanted_by-paused stop) refl

  in_initializing-IsLawful :
      (t : Thread) (r : Round) (o : Result Timestamp)
      → t.status ≡ initializing
      → LawfulStep initializing (in_initializing fl t r o)
  unfolding in_initializing statuses
  in_initializing-IsLawful t r (ok _) e =
      settle-IsLawful initializing _ r (some sampling) [] e starts refl
  in_initializing-IsLawful t r (err f) e = refl
  in_initializing-IsLawful t r panic e = (e, refl)

  round_in-IsLawful :
      (s : Status) (t : Thread) (r : Round) → t.status ≡ s → LawfulStep s (round_in fl s t r)
  unfolding round_in statuses
  round_in-IsLawful initializing t r e = in_initializing-IsLawful t r _ e
  round_in-IsLawful sampling t r e = in_sampling-IsLawful t r r.command e
  round_in-IsLawful paused t r e = in_paused-IsLawful t r r.command e
  round_in-IsLawful terminated t r e = (refl, refl)

  round-IsLawful : (t : Thread) (r : Round) → LawfulStep t.status (round fl t r)
  unfolding round
  round-IsLawful t r = round_in-IsLawful t.status t r refl

  -- Over any rounds, whatever the GDB server does in them, the memory sampler announces each change
  -- of its status, in an order in which the changes may follow one another; the last status
  -- announced is that of the thread while it goes on, still waits, or where it panicked, and
  -- `Terminated` once it has ended, well or with an error.
  pub mem-Announces :
      (rs : List Round) (t : Thread) → Announces status_of (round fl) t.status (run (round fl) rs t)
  mem-Announces rs t = run-Announces status_of (round fl) round-IsLawful rs t
