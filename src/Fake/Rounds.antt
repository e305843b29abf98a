-- ===== src/Fake/Rounds.antt =====
-- The status of the thread of src/sampler/fakesampler.rs.
use ocdscope.Prelude.{
  ◌≡◌, refl, sym, ◌⊎◌, inl, inr, true, Option, some, none, List, [], ◌∷◌, Bool-cases, ℕ,
}
use mathlib.Core.Path.{subst}
use ocdscope.Float.{Floats}
use ocdscope.Sampler.{
  Status, initializing, sampling, paused, terminated, same_status, sent, notified, new_status,
  TryRecv, received, empty, disconnected, finished, switch_status, conclude, run_on, run,
}
use ocdscope.Sampler.Commands.{
  Command, set_active, pause, resume, stop, wanted_by, wanted_by-sampling, wanted_by-paused,
}
use ocdscope.Sampler.Lifecycle.{
  starts, Wants, statuses, IsLawful, IsLawful-stays, conclude-IsLawful,
}
use ocdscope.Sampler.History.{Announces, run-Announces}
use ocdscope.Fake.Picking.{sampled}
use ocdscope.Fake.{
  Waves, Round, Thread, settle, send_sample, take_sample, in_sampling, in_paused, round_in, round,
}

module _ (fl : Floats) (waves : Waves fl) where
  open fl use {F64}

  abbrev pub status_of : Thread fl waves → Status
  status_of t = t.status

  settle-IsLawful :
      (s : Status) (t : Thread fl waves) (r : Round) (wanted : Option Status)
      → t.status ≡ s
      → Wants s wanted
      → IsLawful {V = F64} status_of s (settle fl waves t r wanted)
  unfolding settle statuses
  settle-IsLawful s t r wanted e w =
      subst
        (λ z. IsLawful {V = F64} status_of s (
          conclude (λ s. record t { status = s }) t r.notifications_open (switch_status z wanted)
            []))
        (sym e)
        (conclude-IsLawful status_of (λ s. record t { status = s }) t r.notifications_open []
          (λ s. refl) refl s wanted e w)

  send_sample-IsLawful :
      (s : Status) (t : Thread fl waves) (r : Round) (picked : Option (List (ℕ × F64)))
      → t.status ≡ s
      → IsLawful {V = F64} status_of s (send_sample fl waves t r picked)
  unfolding send_sample statuses
  send_sample-IsLawful s t r none e = refl
  send_sample-IsLawful s t r (some xs) e = elim (Bool-cases r.samples_open) [
    | inl h ↦ elim (Bool-cases r.has_place) [
      | inl k ↦
          rw (h, k)
            (IsLawful-stays {V = F64} status_of s t
              (sent (waves.as_u64 (fl.mul t.t waves.mega), xs) ∷ []) e refl)
      | inr k ↦ rw (h, k) (e, refl)
    ]
    | inr h ↦ rw h refl
  ]

  take_sample-IsLawful :
      (s : Status) (t : Thread fl waves) (r : Round)
      → t.status ≡ s
      → IsLawful {V = F64} status_of s (take_sample fl waves t r)
  unfolding take_sample statuses
  take_sample-IsLawful s t r e = go t.active_ids refl
    where
      go :
          (ids : List ℕ)
          → t.active_ids ≡ ids
          → IsLawful {V = F64} status_of s (take_sample fl waves t r)
      go [] h =
          rw (take_sample, h) (IsLawful-stays {V = F64} status_of s (sampled fl waves t) [] e refl)
      go (id ∷ ids) h = rw (take_sample, h) (send_sample-IsLawful s (sampled fl waves t) r _ e)

  in_sampling-IsLawful :
      (t : Thread fl waves) (r : Round) (c : TryRecv Command)
      → t.status ≡ sampling
      → IsLawful {V = F64} status_of sampling (in_sampling fl waves t r c)
  unfolding in_sampling statuses
  in_sampling-IsLawful t r (received (set_active ids)) e = settle-IsLawful sampling _ r none e tt
  in_sampling-IsLawful t r (received pause) e =
      settle-IsLawful sampling t r _ e (wanted_by-sampling pause)
  in_sampling-IsLawful t r (received resume) e =
      settle-IsLawful sampling t r _ e (wanted_by-sampling resume)
  in_sampling-IsLawful t r (received stop) e =
      settle-IsLawful sampling t r _ e (wanted_by-sampling stop)
  in_sampling-IsLawful t r empty e = take_sample-IsLawful sampling t r e
  in_sampling-IsLawful t r disconnected e = refl

  in_paused-IsLawful :
      (t : Thread fl waves) (r : Round) (c : TryRecv Command)
      → t.status ≡ paused
      → IsLawful {V = F64} status_of paused (in_paused fl waves t r c)
  unfolding in_paused statuses
  in_paused-IsLawful t r (received (set_active ids)) e = settle-IsLawful paused _ r none e tt
  in_paused-IsLawful t r (received pause) e =
      settle-IsLawful paused t r _ e (wanted_by-paused pause)
  in_paused-IsLawful t r (received resume) e =
      settle-IsLawful paused _ r _ e (wanted_by-paused resume)
  in_paused-IsLawful t r (received stop) e = settle-IsLawful paused t r _ e (wanted_by-paused stop)
  in_paused-IsLawful t r empty e = (e, refl)
  in_paused-IsLawful t r disconnected e = refl

  round_in-IsLawful :
      (s : Status) (t : Thread fl waves) (r : Round)
      → t.status ≡ s
      → IsLawful {V = F64} status_of s (round_in fl waves s t r)
  unfolding round_in statuses
  round_in-IsLawful initializing t r e = settle-IsLawful initializing _ r (some sampling) e starts
  round_in-IsLawful sampling t r e = in_sampling-IsLawful t r r.command e
  round_in-IsLawful paused t r e = in_paused-IsLawful t r r.command e
  round_in-IsLawful terminated t r e = (refl, refl)

  round-IsLawful :
      (t : Thread fl waves) (r : Round) → IsLawful {V = F64} status_of t.status (round fl waves t r)
  unfolding round
  round-IsLawful t r = round_in-IsLawful t.status t r refl

  -- Over any rounds, the fake sampler announces each change of its status, in an order in which the
  -- changes may follow one another; the last status announced is that of the thread while it goes
  -- on or still waits, and `Terminated` once it has ended, well or with an error.
  pub fake-Announces :
      (rs : List Round) (t : Thread fl waves)
      → Announces status_of (round fl waves) t.status (run (round fl waves) rs t)
  fake-Announces rs t = run-Announces status_of (round fl waves) round-IsLawful rs t

  -- A thread that samples or is paused and receives `Stop`, while its notifications are received,
  -- ends in the round after, well, and all it sends is that it is `Terminated`.
  pub run-stop :
      (t : Thread fl waves) (r r' : Round) (rs : List Round)
      → (t.status ≡ sampling) ⊎ (t.status ≡ paused)
      → r.command ≡ received stop
      → r.notifications_open ≡ true
      → run (round fl waves) (r ∷ r' ∷ rs) t ≡ (notified (new_status terminated) ∷ [], finished)
  unfolding run run_on round round_in in_sampling in_paused settle conclude switch_status
      same_status wanted_by
  run-stop t r r' rs (inl s) c o = rw (s, c, o) refl
  run-stop t r r' rs (inr s) c o = rw (s, c, o) refl
