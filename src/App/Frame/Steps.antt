-- ===== src/App/Frame/Steps.antt =====
-- A well-formed state of the application (src/main.rs), and the first two steps of a frame: the
-- messages of the sampler and the toolbar.
use ocdscope.Prelude.{
  ℕ, ◌≡◌, refl, sym, ap, ◌∙◌, true, false, Option, none, some, List, [], ◌∷◌, ◌++◌, ok, ◌>>=◌,
  Bool-cases, Option-cases, inl, inr, Ensures-eq_ok,
}
use mathlib.Core.Path.{subst}
use ocdscope.Float.{Floats, IsIeee}
use ocdscope.Sampler.{Status, initializing, sampling, paused, terminated}
use ocdscope.Sampler.Commands.{Command, stop, pause, resume}
use ocdscope.Buffer.{Run}
use ocdscope.App.{OcdScope, Handle, active_ids, any_dialog_visible}
use ocdscope.App.Messages.{
  Inbox, read_notifications, drop_terminated, read_samples, handle_messages,
}
use ocdscope.App.Notified.{statuses_in, ends}
use ocdscope.App.Timed.{last_time, IsClock, IsAscending}
use ocdscope.App.Handling.{Received, handle_messages-Dropped, handle_messages-Received}
use ocdscope.App.Unasked.{asked_after}
use ocdscope.App.Connect.{Clicks, pause_or_resume, disconnect, toolbar_by, toolbar}
use ocdscope.App.Drawn.{AreDrawable}
use ocdscope.App.Frame.Quiet.{handle_messages-Closes}
use ocdscope.App.Frame.Filled.{
  handle_messages-AreFilled, IsRecent, AreDrawable-AreFilled, AreFilled-AreDrawable,
}

-- "Disconnect" is not clicked in one frame with another button.
abbrev pub ClicksOnce : Clicks → Type 0
ClicksOnce clicks =
    clicks.disconnect ≡ true → (clicks.to_pause ≡ false) × (clicks.to_resume ≡ false)

module _ (fl : Floats) (ieee : IsIeee fl) where
  open fl use {F64}

  -- A state of the application between two steps, with the signals that its sampler is asked for: the
  -- dialog for a connection is open only without a sampler; every buffer has points, in time order;
  -- the length that is kept of the buffers is taken off times as numbers; and a sampler is asked for the signals that are enabled.
  pub record IsWell (s : OcdScope fl) (asked : List ℕ) : Type 0 where
    pub connectable : s.show_connect_dialog ≡ true → s.current_sampler ≡ none
    pub drawable : AreDrawable fl s.max_time s.samples
    pub clock : IsClock fl ieee s.buffer_auto_truncate_at
    pub asks :
        (sampler : Handle) → s.current_sampler ≡ some sampler → asked ≡ active_ids fl s.signals

  -- A step that gives a state and commands.
  abbrev pub Goes : Run (OcdScope fl × List Command) → List ℕ → Type 0
  Goes m asked =
      (s' : OcdScope fl) × (calls : List Command) × (m ≡ ok (s', calls))
      × IsWell s' (asked_after asked calls)

  pub no_sampler : (o : Option Handle) (sampler : Handle) → o ≡ none → o ≡ some sampler → ⊥
  no_sampler o sampler e f = cc

  -- The state without its sampler.
  pub dropped :
      (s s' : OcdScope fl) (asked : List ℕ)
      → IsWell s asked
      → s'.current_sampler ≡ none
      → s'.samples ≡ s.samples
      → s'.max_time ≡ s.max_time
      → s'.buffer_auto_truncate_at ≡ s.buffer_auto_truncate_at
      → (asked' : List ℕ) → IsWell s' asked'
  dropped s s' asked w gone samples max_time at asked' = record {
    connectable = λ _. gone;
    drawable = rw (samples, max_time) w.drawable;
    clock = subst (IsClock fl ieee) (sym at) w.clock;
    asks = λ sampler e. absurd (no_sampler s'.current_sampler sampler gone e);
  }

  received :
      (s s' : OcdScope fl) (asked : List ℕ) (inbox : Inbox fl)
      → IsWell s asked
      → IsAscending fl s.max_time inbox.sampled
      → IsRecent fl (last_time fl s.max_time inbox.sampled) s.buffer_auto_truncate_at
      → handle_messages fl s inbox ≡ ok (s', [])
      → Received fl s inbox s'
      → IsWell s' asked
  received s s' asked inbox w ascending recent e r =
      let (closed, at) =
        Ensures-eq_ok _ (handle_messages fl s inbox) (handle_messages-Closes fl s inbox) e in
      let (filled, timed) = AreDrawable-AreFilled fl s.max_time s.samples w.drawable in
      let filled' =
        Ensures-eq_ok _ (handle_messages fl s inbox)
          (handle_messages-AreFilled fl ieee s inbox w.clock recent filled timed ascending) e in
      record {
        connectable = λ h. r.sampler ∙ w.connectable (closed h);
        drawable = AreFilled-AreDrawable fl s'.max_time s'.samples filled' r.in_order;
        clock = subst (IsClock fl ieee) (sym at) w.clock;
        asks = λ sampler h. w.asks sampler (sym r.sampler ∙ h) ∙ ap (active_ids fl) (sym r.signals);
      }

  pub handle_messages-Goes :
      (s : OcdScope fl) (asked : List ℕ) (inbox : Inbox fl)
      → IsWell s asked
      → IsAscending fl s.max_time inbox.sampled
      → IsRecent fl (last_time fl s.max_time inbox.sampled) s.buffer_auto_truncate_at
      → Goes (handle_messages fl s inbox) asked
  unfolding handle_messages read_notifications drop_terminated read_samples asked_after
  handle_messages-Goes s asked inbox w ascending recent = elim (Option-cases s.current_sampler) [
    | inl e ↦ (s, [], rw e refl, w)
    | inr (sampler, e) ↦ elim (Bool-cases (ends (statuses_in inbox.notifications))) [
      | inl over ↦
          let (s', f, d) = handle_messages-Dropped fl s inbox sampler e over in
          let (_, samples, max_time, _, at) = d.same in
          (s', stop ∷ [], f, dropped s s' asked w d.sampler samples max_time at asked)
      | inr goes_on ↦
          let (_, timed) = AreDrawable-AreFilled fl s.max_time s.samples w.drawable in
          let (s', f, r) =
            handle_messages-Received fl ieee s inbox sampler w.clock e goes_on timed ascending in
          (s', [], f, received s s' asked inbox w ascending recent f r)
    ]
  ]

  -- A press of a button, or none.
  pause_or_resume-quiet :
      (o : Option Status) (s : OcdScope fl) (clicks : Clicks) (sampler : Handle) (asked : List ℕ)
      → s.current_sampler ≡ some sampler
      → (calls : List Command) × (pause_or_resume fl o s clicks ≡ ok calls)
        × (asked_after asked calls ≡ asked)
  unfolding pause_or_resume asked_after
  pause_or_resume-quiet none s clicks sampler asked e = ([], refl, refl)
  pause_or_resume-quiet (some initializing) s clicks sampler asked e = ([], refl, refl)
  pause_or_resume-quiet (some terminated) s clicks sampler asked e = ([], refl, refl)
  pause_or_resume-quiet (some sampling) s clicks sampler asked e =
      elim (Bool-cases clicks.to_pause) [
        | inl f ↦ (pause ∷ [], rw (f, e) refl, refl)
        | inr f ↦ ([], rw f refl, refl)
      ]
  pause_or_resume-quiet (some paused) s clicks sampler asked e =
      elim (Bool-cases clicks.to_resume) [
        | inl f ↦ (resume ∷ [], rw (f, e) refl, refl)
        | inr f ↦ ([], rw f refl, refl)
      ]

  pause_or_resume-unpressed :
      (o : Option Status) (s : OcdScope fl) (clicks : Clicks)
      → clicks.to_pause ≡ false
      → clicks.to_resume ≡ false
      → pause_or_resume fl o s clicks ≡ ok []
  unfolding pause_or_resume
  pause_or_resume-unpressed none s clicks f g = refl
  pause_or_resume-unpressed (some initializing) s clicks f g = refl
  pause_or_resume-unpressed (some terminated) s clicks f g = refl
  pause_or_resume-unpressed (some sampling) s clicks f g = rw f refl
  pause_or_resume-unpressed (some paused) s clicks f g = rw g refl

  -- What the toolbar does behind the button to disconnect.
  abbrev then_press : Clicks → OcdScope fl × List Command → Run (OcdScope fl × List Command)
  then_press clicks (s, calls) =
      pause_or_resume fl s.current_sampler_status s clicks >>= λ more. ok (s, calls ++ more)

  disconnected :
      (s : OcdScope fl) (clicks : Clicks)
      → clicks.disconnect ≡ true
      → disconnect fl s clicks ≡ (record s { current_sampler = none }, stop ∷ [])
  unfolding disconnect
  disconnected s clicks f = rw f refl

  still_connected :
      (s : OcdScope fl) (clicks : Clicks)
      → clicks.disconnect ≡ false
      → disconnect fl s clicks ≡ (s, [])
  unfolding disconnect
  still_connected s clicks f = rw f refl

  with_sampler :
      (s : OcdScope fl) (asked : List ℕ) (clicks : Clicks) (sampler : Handle)
      → IsWell s asked
      → s.current_sampler ≡ some sampler
      → ClicksOnce clicks
      → Goes (toolbar_by fl (some sampler) s clicks) asked
  unfolding toolbar_by asked_after
  with_sampler s asked clicks sampler w e once = elim (Bool-cases clicks.disconnect) [
    | inl f ↦
        let s' = record s { current_sampler = none } in
        let (g, h) = once f in
        (
          s',
          stop ∷ [],
          ap (then_press clicks) (disconnected s clicks f)
              ∙ ap (λ (m : Run (List Command)). m >>= λ more. ok (s', stop ∷ more))
                  (pause_or_resume-unpressed s.current_sampler_status s' clicks g h),
          dropped s s' asked w refl refl refl refl asked,
        )
    | inr f ↦
        let (calls, g, quiet) =
          pause_or_resume-quiet s.current_sampler_status s clicks sampler asked e in
        (
          s,
          calls,
          ap (then_press clicks) (still_connected s clicks f)
              ∙ ap (λ (m : Run (List Command)). m >>= λ more. ok (s, more)) g,
          subst (IsWell s) (sym quiet) w,
        )
  ]

  without_sampler :
      (s : OcdScope fl) (asked : List ℕ) (clicks : Clicks)
      → IsWell s asked
      → s.current_sampler ≡ none
      → Goes (toolbar_by fl none s clicks) asked
  unfolding toolbar_by asked_after
  without_sampler s asked clicks w e = elim (Bool-cases clicks.connect) [
    | inl f ↦
        let s' = record s { show_connect_dialog = true } in
        (s', [], rw f refl, dropped s s' asked w e refl refl refl asked)
    | inr f ↦ (s, [], rw f refl, w)
  ]

  pub toolbar-Goes :
      (s : OcdScope fl) (asked : List ℕ) (clicks : Clicks)
      → IsWell s asked
      → ClicksOnce clicks
      → Goes (toolbar fl s clicks) asked
  unfolding toolbar asked_after
  toolbar-Goes s asked clicks w once = elim (Bool-cases (any_dialog_visible fl s)) [
    | inl f ↦ (s, [], rw f refl, w)
    | inr f ↦ elim (Option-cases s.current_sampler) [
      | inl e ↦
          let (s', calls, g, w') = without_sampler s asked clicks w e in
          (s', calls, rw f (ap (λ o. toolbar_by fl o s clicks) e ∙ g), w')
      | inr (sampler, e) ↦
          let (s', calls, g, w') = with_sampler s asked clicks sampler w e once in
          (s', calls, rw f (ap (λ o. toolbar_by fl o s clicks) e ∙ g), w')
    ]
  ]
