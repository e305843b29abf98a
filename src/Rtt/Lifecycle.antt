-- ===== src/Rtt/Lifecycle.antt =====
-- The status of `sampler_thread` of src/sampler/rttsampler.rs, and how its changes are announced.
use ocdscope.Prelude.{
  inr, inl, take, length, leb, Option-cases, ◌≡◌, refl, sym, ap₂, ◌∙◌, Bool, Option, none, some,
  List, [], ◌++◌, map, Outcome, ok, err, panic, arith, Bool-cases, inl, inr,
}
use mathlib.Core.Path.{subst}
use ocdscope.Text.{Bytes}
use ocdscope.Float.{Floats}
use ocdscope.Sampler.{
  Status, initializing, sampling, paused, terminated, Failure, Effect, sent, TryRecv, received,
  empty, disconnected, Next, switch_status, run,
}
use ocdscope.Sampler.Lifecycle.{
  Moves, starts, pauses, resumes, stops, stops_paused, Wants, statuses, statuses-append,
  statuses-sent, IsLawful, IsLawful-ends_with, conclude-IsLawful,
}
use ocdscope.Sampler.History.{Announces, run-Announces}
use ocdscope.Rtt.Packet.{RttScopePacketStructure}
use ocdscope.Rtt.Sampler.{
  after_drain, ThreadCommand, pause, resume, stop, Thread, Round, obey, extend_buffer, Drained,
  measure, settle, after_sends, after_command, work, round_in, round,
}

pub obey-sampling : (c : ThreadCommand) → Wants sampling (obey sampling c)
unfolding obey
obey-sampling stop = stops
obey-sampling pause = pauses
obey-sampling resume = tt

pub obey-paused : (c : ThreadCommand) → Wants paused (obey paused c)
unfolding obey
obey-paused stop = stops_paused
obey-paused pause = tt
obey-paused resume = resumes

module _ (fl : Floats) (st : RttScopePacketStructure) where
  open fl use {F64}

  abbrev pub IsLawfulRound : Status → List (Effect F64) × Next Thread → Type 0
  IsLawfulRound = IsLawful (λ (t : Thread). t.status)

  settle-IsLawful :
      (s : Status) (t : Thread) (open_ : Bool) (wanted : Option Status) (es : List (Effect F64))
      → t.status ≡ s
      → statuses es ≡ []
      → Wants s wanted
      → IsLawfulRound s (settle fl st t open_ (switch_status s wanted) es)
  unfolding settle
  settle-IsLawful s t open_ wanted es e quiet w =
      conclude-IsLawful (λ (t : Thread). t.status) (λ s. record t { status = s }) t open_ es
        (λ s. refl) quiet s wanted e w

  pub measure-status :
      (t : Thread) (r : Round)
      → ((measure fl st t r).0.status ≡ t.status) × (statuses (measure fl st t r).1 ≡ [])
  unfolding measure statuses
  measure-status t r = ground arith

  after_sends-IsLawful :
      (t : Thread) (r : Round) (wanted : Option Status) (d : Drained fl)
      → Wants t.status wanted
      → IsLawfulRound t.status (after_sends fl st t r wanted d)
  unfolding after_sends
  after_sends-IsLawful t r wanted d w = go d.failure refl
    where
      go :
          (f : Option Failure)
          → d.failure ≡ f
          → IsLawfulRound t.status (after_sends fl st t r wanted d)
      go (some f) e =
          rw (after_sends, e)
            (IsLawful-ends_with (λ (t : Thread). t.status) t.status t (map sent d.samples) f refl
              (statuses-sent d.samples))
      go none e =
          let t' = record t { buffer = d.rest; rate_measurement_samples_received = d.count } in
          let (same, quiet) = measure-status t' r in
          rw (after_sends, e)
            (settle-IsLawful t.status (measure fl st t' r).0 r.notifications_open wanted _ same
              (statuses-append (map sent d.samples) (measure fl st t' r).1
                ∙ ap₂ (λ a b. a ++ b) (statuses-sent d.samples) quiet)
              w)

  after_drain-IsLawful :
      (t : Thread) (r : Round) (wanted : Option Status) (d : Drained fl)
      → Wants t.status wanted
      → IsLawfulRound t.status (after_drain fl st t r wanted d)
  unfolding after_drain after_sends measure
  after_drain-IsLawful t r wanted d w = elim (Option-cases r.places) [
    | inl e ↦ rw e (after_sends-IsLawful t r wanted d w)
    | inr (n, e) ↦ elim (Bool-cases (leb (length d.samples) n)) [
      | inl f ↦ rw (e, f) (after_sends-IsLawful t r wanted d w)
      | inr f ↦ rw (e, f) (refl, statuses-sent (take n d.samples))
    ]
  ]

  after_command-IsLawful :
      (t : Thread) (r : Round) (wanted : Option Status)
      → Wants t.status wanted
      → IsLawfulRound t.status (after_command fl st t r wanted)
  unfolding after_command
  after_command-IsLawful t r wanted w = go (extend_buffer t.buffer r.reading) refl
    where
      go :
          (b : Outcome Failure Bytes)
          → extend_buffer t.buffer r.reading ≡ b
          → IsLawfulRound t.status (after_command fl st t r wanted)
      go (ok b) e = rw (after_command, e) (after_drain-IsLawful t r wanted _ w)
      go (err f) e = rw (after_command, e) (unfold statuses in refl)
      go panic e = rw (after_command, e) (refl, unfold statuses in refl)

  work-IsLawful :
      (t : Thread) (r : Round) (c : TryRecv ThreadCommand)
      → ((k : ThreadCommand) → Wants t.status (obey t.status k))
      → IsLawfulRound t.status (work fl st t r c)
  unfolding work statuses
  work-IsLawful t r disconnected h = refl
  work-IsLawful t r empty h = after_command-IsLawful t r none tt
  work-IsLawful t r (received c) h = after_command-IsLawful t r (obey t.status c) (h c)

  round_in-IsLawful :
      (s : Status) (t : Thread) (r : Round)
      → t.status ≡ s
      → IsLawfulRound t.status (round_in fl st s t r)
  unfolding round_in statuses
  round_in-IsLawful initializing t r e =
      settle-IsLawful t.status _ r.notifications_open (some sampling) [] refl refl
        (subst (λ s. Moves s sampling) (sym e) starts)
  round_in-IsLawful sampling t r e =
      work-IsLawful t r r.command
        (subst (λ s. (k : ThreadCommand) → Wants s (obey s k)) (sym e) obey-sampling)
  round_in-IsLawful paused t r e =
      work-IsLawful t r r.command
        (subst (λ s. (k : ThreadCommand) → Wants s (obey s k)) (sym e) obey-paused)
  round_in-IsLawful terminated t r e = elim (Bool-cases r.server_stops) [
    | inl good ↦ rw good (e, refl)
    | inr bad ↦ rw bad refl
  ]

  -- Whatever a round meets, the thread goes on in a status that may follow, having announced exactly
  -- the change of the status, or it has ended well in `Terminated`, or it failed, panicked, is
  -- blocked or still waits, with no announcement.
  pub round-IsLawful : (t : Thread) (r : Round) → IsLawfulRound t.status (round fl st t r)
  unfolding round
  round-IsLawful t r = round_in-IsLawful t.status t r refl

  -- Over any rounds, the RTT sampler announces each change of its status, in an order in which the
  -- changes may follow one another; the last status announced is that of the thread while it goes
  -- on or where it panicked, and `Terminated` once it has ended, well or with an error.
  pub rtt-Announces :
      (rs : List Round) (t : Thread)
      → Announces (λ (t : Thread). t.status) (round fl st) t.status (run (round fl st) rs t)
  rtt-Announces rs t = run-Announces (λ (t : Thread). t.status) (round fl st) round-IsLawful rs t
