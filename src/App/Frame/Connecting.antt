-- ===== src/App/Frame/Connecting.antt =====
-- The dialog for a connection in a frame (src/main.rs).
use ocdscope.Prelude.{
  true_ne_false, debug_assert, ℕ, ◌≡◌, ◌≢◌, refl, sym, ◌∙◌, Bool, true, false, not, Option, none,
  List, [], ok, err, ◌>>=◌, panic, Outcome, Bool-cases, inl, inr, if◌then◌else◌,
}
use ocdscope.Float.{Floats, IsIeee}
use ocdscope.Sampler.Commands.{Command}
use ocdscope.Buffer.{Run}
use ocdscope.App.{
  SamplingMethod, memory_sampling, rtt, simulated, OcdScope, Handle, Message, show_error,
  close_all_dialogs, reset_buffer,
}
use ocdscope.App.Unasked.{asked_after}
use ocdscope.App.Connect.{
  start, stop_previous, connected_by, take_over, connect, try_connect_sampler,
}
use ocdscope.App.Active.{enable_first-asked}
use ocdscope.App.Frame.{
  Settings, set_settings, ConnectInput, Settled, is_none, settled, press_connect, connect_dialog,
}
use ocdscope.App.Frame.Steps.{IsWell, dropped}

-- The signals that a sampler is asked for after a frame: a sampler that was started in it begins with
-- none.
abbrev pub next_asked : List ℕ → Bool → List Command → List Command → List ℕ
next_asked asked started calls to_new =
    asked_after (if started then [] else asked_after asked calls) to_new

only_if_true : {A : Type 0} (b : Bool) (x y : A) → b ≡ true → (if b then x else y) ≡ x
only_if_true b x y e = rw e refl

only_if_false : {A : Type 0} (b : Bool) (x y : A) → b ≡ false → (if b then x else y) ≡ y
only_if_false b x y e = rw e refl

-- The assertion that there is no sampler passes where there is none.
asserted :
    {A : Type 0} (debug : Bool) (o : Option Handle)
    → o ≡ none
    → (m : Run A) → (debug_assert debug (is_none o) >>= λ _. m) ≡ m
unfolding debug_assert is_none
asserted true o e m = rw e refl
asserted false o e m = refl

module _ (fl : Floats) (ieee : IsIeee fl) where
  open fl use {F64}

  -- The dialog for a connection ends with a well-formed state, and no sampler before is stopped.
  abbrev pub Settles : List ℕ → Run (Settled fl) → Type 0
  Settles asked m =
      (r : Settled fl) × (m ≡ ok r) × IsWell fl ieee r.0 (next_asked asked r.1 r.2 r.3) × (r.2 ≡ [])

  settled-Settles :
      (s : OcdScope fl) (asked : List ℕ) (o : Outcome Message Handle)
      → IsWell fl ieee s asked
      → s.current_sampler ≡ none
      → s.show_connect_dialog ≡ false
      → o ≢ panic
      → let c = take_over fl (connected_by fl s o) (connected_by fl s o).sampler in
        Settles asked (settled fl c c.sampler)
  unfolding take_over connected_by settled asked_after reset_buffer show_error close_all_dialogs
      stop_previous
  settled-Settles s asked (ok sampler) w e closed some_result = (
    _,
    refl,
    record {
      connectable = λ h. absurd (true_ne_false (sym h ∙ closed));
      drawable = tt;
      clock = w.clock;
      asks = λ _ _. enable_first-asked fl sampler.available_signals;
    },
    rw e refl,
  )
  settled-Settles s asked (err m) w e closed some_result =
      (_, refl, dropped fl ieee s _ asked w e refl refl refl asked, refl)
  settled-Settles s asked panic w e closed some_result = absurd (some_result refl)

  press_connect-Settles :
      (debug : Bool) (s : OcdScope fl) (asked : List ℕ) (i : ConnectInput fl)
      → IsWell fl ieee s asked
      → s.current_sampler ≡ none
      → ((s : OcdScope fl) → start fl s i.starts ≢ panic)
      → Settles asked (press_connect fl debug s i)
  unfolding press_connect connect try_connect_sampler is_none
  press_connect-Settles debug s asked i w e some_result =
      let s' = record s { show_connect_dialog = false } in
      let (r, f, well, quiet) =
        settled-Settles s' asked (start fl s' i.starts)
          (record { connectable = λ _. e; drawable = w.drawable; clock = w.clock; asks = w.asks }) e
          refl (some_result s') in
      (r, asserted debug s.current_sampler e _ ∙ f, well, quiet)

  set_settings_only :
      (m : SamplingMethod) (e : Settings fl) (s : OcdScope fl)
      → let s' = set_settings fl m e s in
        (s'.current_sampler ≡ s.current_sampler)
        × (s'.samples ≡ s.samples)
        × (s'.max_time ≡ s.max_time)
        × (s'.buffer_auto_truncate_at ≡ s.buffer_auto_truncate_at)
  unfolding set_settings
  set_settings_only memory_sampling e s = (refl, refl, refl, refl)
  set_settings_only rtt e s = (refl, refl, refl, refl)
  set_settings_only simulated e s = (refl, refl, refl, refl)

  pub connect_dialog-Settles :
      (debug : Bool) (s : OcdScope fl) (asked : List ℕ) (i : ConnectInput fl)
      → IsWell fl ieee s asked
      → ((s : OcdScope fl) → start fl s i.starts ≢ panic)
      → Settles asked (connect_dialog fl debug s i)
  unfolding connect_dialog asked_after
  connect_dialog-Settles debug s asked i w some_result =
      let s0 = set_settings fl i.method i.settings s in
      let s' = record s0 { sampling_method = i.method; show_connect_dialog = not i.cancelled } in
      let (sampler, samples, max_time, at) = set_settings_only i.method i.settings s in
      elim (Bool-cases s.show_connect_dialog) [
        | inr e ↦ ((s, false, [], []), only_if_false _ _ _ e, w, refl)
        | inl e ↦
            let gone = w.connectable e in
            let w' = dropped fl ieee s s' asked w (sampler ∙ gone) samples max_time at asked in
            elim (Bool-cases i.connected) [
              | inr f ↦
                  ((s', false, [], []), only_if_true _ _ _ e ∙ only_if_false _ _ _ f, w', refl)
              | inl f ↦
                  let (r, g, well, quiet) =
                    press_connect-Settles debug s' asked i w' (sampler ∙ gone) some_result in
                  (r, only_if_true _ _ _ e ∙ only_if_true _ _ _ f ∙ g, well, quiet)
            ]
      ]
