-- ===== src/App/Unasked.antt =====
-- The operations of src/main.rs that neither change the list of signals nor ask the sampler for some.
use ocdscope.Prelude.{
  ℕ, ◌≡◌, refl, ap, ◌∙◌, Bool, true, false, Option, none, some, List, [], ◌∷◌, ◌++◌, ok, ◌>>=◌,
  Bool-cases, inl, inr, Ensures, Ensures-Unit, Ensures->>=, expect, if◌then◌else◌,
}
use mathlib.Core.Path.{subst}
use ocdscope.Float.{Floats}
use ocdscope.Sampler.{Status, initializing, sampling, paused, terminated, Sample}
use ocdscope.Sampler.Commands.{Command, set_active, pause, resume, stop}
use ocdscope.Buffer.{Running}
use ocdscope.App.{any_dialog_visible, Handle, SignalConfig, OcdScope}
use ocdscope.App.Messages.{
  Inbox, read_notifications, drop_terminated, take_samples, truncate_all, auto_truncate,
  read_samples, handle_messages,
}
use ocdscope.App.Notified.{take_notifications-Told}
use ocdscope.App.Handling.{take_samples_only}
use ocdscope.App.Connect.{Clicks, pause_or_resume, disconnect, toolbar_by, toolbar}

-- The signals that a sampler samples after commands, if it sampled `asked` before.
unfoldable pub asked_after : List ℕ → List Command → List ℕ
asked_after asked [] = asked
asked_after asked (set_active ids ∷ cs) = asked_after ids cs
asked_after asked (pause ∷ cs) = asked_after asked cs
asked_after asked (resume ∷ cs) = asked_after asked cs
asked_after asked (stop ∷ cs) = asked_after asked cs

module _ (fl : Floats) where
  open fl use {F64}

  -- No operation but a connection and the list of signals changes the signals or asks for some.
  abbrev pub Unasked : List (SignalConfig fl) → OcdScope fl × List Command → Type 0
  Unasked signals (s', calls) =
      (s'.signals ≡ signals) × ((asked : List ℕ) → asked_after asked calls ≡ asked)

  take_samples-signals :
      (xs : List (Sample F64)) (s : OcdScope fl) → (take_samples fl xs s).signals ≡ s.signals
  take_samples-signals xs s = ap (λ (s : OcdScope fl). s.signals) (take_samples_only fl xs s)

  auto_truncate-signals :
      (s : OcdScope fl)
      → Ensures (auto_truncate fl s) (λ (s' : OcdScope fl). s'.signals ≡ s.signals)
  unfolding auto_truncate
  auto_truncate-signals s = elim (Bool-cases s.buffer_auto_truncate) [
    | inr e ↦ rw (auto_truncate, e) refl
    | inl e ↦
        rw (auto_truncate, e)
          (Ensures->>= (λ _. Unit {0}) (λ (s' : OcdScope fl). s'.signals ≡ s.signals)
            (truncate_all fl s.buffer_auto_truncate_at s.samples) _
            (Ensures-Unit (truncate_all fl s.buffer_auto_truncate_at s.samples)) (λ bs _. refl))
  ]

  read_samples-signals :
      (o : Option Handle) (s : OcdScope fl) (xs : List (Sample F64))
      → Ensures (read_samples fl o s xs) (λ (s' : OcdScope fl). s'.signals ≡ s.signals)
  unfolding read_samples
  read_samples-signals none s xs = refl
  read_samples-signals (some sampler) s xs =
      subst
        (λ z.
          Ensures (auto_truncate fl (take_samples fl xs s)) (λ (s' : OcdScope fl). s'.signals ≡ z))
        (take_samples-signals xs s) (auto_truncate-signals (take_samples fl xs s))

  drop_terminated-Unasked :
      (s : OcdScope fl) (ended : Bool) → Ensures (drop_terminated fl (s, ended)) (Unasked s.signals)
  unfolding drop_terminated asked_after
  drop_terminated-Unasked s false = (refl, λ asked. refl)
  drop_terminated-Unasked s true = go s.current_sampler refl
    where
      go :
          (o : Option Handle)
          → s.current_sampler ≡ o
          → Ensures (drop_terminated fl (s, true)) (Unasked s.signals)
      go none e = rw (drop_terminated, e) tt
      go (some sampler) e = rw (drop_terminated, e) (refl, λ asked. refl)

  read_notifications-signals :
      (o : Option Handle) (s : OcdScope fl) (inbox : Inbox fl)
      → (read_notifications fl o s inbox.notifications).0.signals ≡ s.signals
  unfolding read_notifications
  read_notifications-signals none s inbox = refl
  read_notifications-signals (some sampler) s inbox =
      (take_notifications-Told fl (record s { current_sampler = none }) false
        inbox.notifications).0.same.0

  pub handle_messages-Unasked :
      (s : OcdScope fl) (inbox : Inbox fl)
      → Ensures (handle_messages fl s inbox) (Unasked s.signals)
  unfolding handle_messages
  handle_messages-Unasked s inbox =
      let told = read_notifications fl s.current_sampler s inbox.notifications in
      Ensures->>= (Unasked told.0.signals) (Unasked s.signals) (drop_terminated fl told) _
        (drop_terminated-Unasked told.0 told.1)
        (λ r (same, quiet).
          Ensures->>= (λ (s' : OcdScope fl). s'.signals ≡ r.0.signals) (Unasked s.signals)
            (read_samples fl r.0.current_sampler r.0 inbox.sampled) _
            (read_samples-signals r.0.current_sampler r.0 inbox.sampled)
            (λ s' e. (e ∙ same ∙ read_notifications-signals s.current_sampler s inbox, quiet)))

  -- Commands that ask for no signals.
  abbrev IsQuiet : List Command → Type 0
  IsQuiet calls = (asked : List ℕ) → asked_after asked calls ≡ asked

  pub asked_after-append :
      (xs ys : List Command) (asked : List ℕ)
      → asked_after asked (xs ++ ys) ≡ asked_after (asked_after asked xs) ys
  unfolding asked_after
  asked_after-append [] ys asked = refl
  asked_after-append (set_active ids ∷ xs) ys asked = asked_after-append xs ys ids
  asked_after-append (pause ∷ xs) ys asked = asked_after-append xs ys asked
  asked_after-append (resume ∷ xs) ys asked = asked_after-append xs ys asked
  asked_after-append (stop ∷ xs) ys asked = asked_after-append xs ys asked

  press-IsQuiet :
      (c : Command) (clicked : Bool) (o : Option Handle)
      → IsQuiet (c ∷ [])
      → Ensures (if clicked then (expect {E = Running} o >>= λ _. ok (c ∷ [])) else ok []) IsQuiet
  unfolding asked_after
  press-IsQuiet c false o h = λ asked. refl
  press-IsQuiet c true none h = tt
  press-IsQuiet c true (some sampler) h = h

  pause_or_resume-IsQuiet :
      (o : Option Status) (s : OcdScope fl) (clicks : Clicks)
      → Ensures (pause_or_resume fl o s clicks) IsQuiet
  unfolding pause_or_resume asked_after
  pause_or_resume-IsQuiet (some sampling) s clicks =
      press-IsQuiet pause clicks.to_pause s.current_sampler (λ asked. refl)
  pause_or_resume-IsQuiet (some paused) s clicks =
      press-IsQuiet resume clicks.to_resume s.current_sampler (λ asked. refl)
  pause_or_resume-IsQuiet (some initializing) s clicks = λ asked. refl
  pause_or_resume-IsQuiet (some terminated) s clicks = λ asked. refl
  pause_or_resume-IsQuiet none s clicks = λ asked. refl

  disconnect-Unasked :
      (s : OcdScope fl) (clicks : Clicks) → Unasked s.signals (disconnect fl s clicks)
  unfolding disconnect asked_after
  disconnect-Unasked s clicks = elim (Bool-cases clicks.disconnect) [
    | inl e ↦ rw (disconnect, e) (refl, λ asked. refl)
    | inr e ↦ rw (disconnect, e) (refl, λ asked. refl)
  ]

  toolbar_by-Unasked :
      (o : Option Handle) (s : OcdScope fl) (clicks : Clicks)
      → Ensures (toolbar_by fl o s clicks) (Unasked s.signals)
  unfolding toolbar_by asked_after
  toolbar_by-Unasked none s clicks = elim (Bool-cases clicks.connect) [
    | inl e ↦ rw e (refl, λ asked. refl)
    | inr e ↦ rw e (refl, λ asked. refl)
  ]
  toolbar_by-Unasked (some sampler) s clicks =
      let (s', calls) = disconnect fl s clicks in
      let (same, quiet) = disconnect-Unasked s clicks in
      Ensures->>= IsQuiet (Unasked s.signals)
        (pause_or_resume fl s'.current_sampler_status s' clicks) _
        (pause_or_resume-IsQuiet s'.current_sampler_status s' clicks)
        (λ more q. (
          same,
          λ asked. asked_after-append calls more asked ∙ q (asked_after asked calls) ∙ quiet asked,
        ))

  pub toolbar-Unasked :
      (s : OcdScope fl) (clicks : Clicks) → Ensures (toolbar fl s clicks) (Unasked s.signals)
  unfolding toolbar asked_after
  toolbar-Unasked s clicks = elim (Bool-cases (any_dialog_visible fl s)) [
    | inl e ↦ rw (toolbar, e) (refl, λ asked. refl)
    | inr e ↦ rw (toolbar, e) (toolbar_by-Unasked s.current_sampler s clicks)
  ]
