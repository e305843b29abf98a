-- ===== src/App/Frame/Session.antt =====
-- The application (src/main.rs) over a whole session: any frames, from the start of the program.
use ocdscope.Prelude.{
  sym, ◌≢◌, Bool, refl, [], ◌∷◌, inr, inl, Bool-cases, Option, some, none, false, true,
  debug_assert, ℕ, ◌≡◌, ◌≢◌, refl, sym, ap, ◌∙◌, Bool, List, [], ◌++◌, true, ok, panic,
  if◌then◌else◌, ◌>>=◌,
}
use mathlib.Core.Path.{subst}
use ocdscope.Text.{Bytes}
use ocdscope.Float.{Floats, IsIeee}
use ocdscope.Sampler.Commands.{stop, resume, pause, set_active, Command}
use ocdscope.Export.{ExportError}
use ocdscope.Buffer.{Running, Run}
use ocdscope.App.{OcdScope, Message, new}
use ocdscope.App.Messages.{handle_messages}
use ocdscope.App.Timed.{last_time, IsClock, IsAscending}
use ocdscope.App.Unasked.{asked_after, asked_after-append}
use ocdscope.App.Connect.{toolbar, start, list_signals}
use ocdscope.App.Picked.{Written, export_picked}
use ocdscope.App.Plot.{Line, drawn_from, drawn_to}
use ocdscope.App.Drawn.{draw-lines_of, lines_of}
use ocdscope.App.Frame.{
  assert_stops, Input, Frame, update, panels, dialogs, set_controls, offer_address, stop_following,
  address_dialog, error_dialog, sizes_shown, followed,
}
use ocdscope.App.Frame.Release.{export_picked-release}
use ocdscope.App.Frame.Filled.{IsRecent}
use ocdscope.App.Frame.Steps.{IsWell, ClicksOnce, handle_messages-Goes, toolbar-Goes}
use ocdscope.App.Frame.Connecting.{next_asked, connect_dialog-Settles}
use ocdscope.App.Frame.Dialogs.{
  export_picked-Exports, set_controls-IsWell, list_signals-IsWell, offer_address-IsWell,
  stop_following-IsWell, error_dialog-IsWell, address_dialog-IsWell,
}

asserts :
    (debug passes : Bool)
    → (debug ≡ true → passes ≡ true)
    → debug_assert {E = Running} debug passes ≡ ok tt
unfolding debug_assert
asserts true passes h = rw (h refl) refl
asserts false passes h = refl

module _ (fl : Floats) (ieee : IsIeee fl) (display : fl.F64 → Bytes)
    (export_message : ExportError → Message) (debug : Bool) where
  open fl use {F64, le}

  -- What the model relies on in a frame: samples come in time order, none before `max_time`; the
  -- length that is kept leads to an earlier time from each time so far; "Disconnect" is not clicked
  -- with another button; the ends of the drawn window are numbers in order; the new length to keep
  -- leads to numbers; no sampler panics at its start; and the extension of a picked file is text. In
  -- debug builds, also the assertions pass that `stop` and the exports make.
  pub record IsFair (s : OcdScope fl) (i : Input fl) : Type 0 where
    pub ascending : IsAscending fl s.max_time i.inbox.sampled
    pub recent : IsRecent fl (last_time fl s.max_time i.inbox.sampled) s.buffer_auto_truncate_at
    pub once : ClicksOnce i.clicks
    pub low : ieee.IsNumber (drawn_from fl i.plot.x_min i.plot.x_max)
    pub high : ieee.IsNumber (drawn_to fl i.plot.x_min i.plot.x_max)
    pub ordered :
        le (drawn_from fl i.plot.x_min i.plot.x_max) (drawn_to fl i.plot.x_min i.plot.x_max) ≡ true
    pub clock : IsClock fl ieee i.controls.truncate_at
    pub starts : (s : OcdScope fl) → start fl s i.connecting.starts ≢ panic
    pub named : i.picked ≢ some none
    pub stops : debug ≡ true → i.stop_passes ≡ true
    pub exports :
        (s1 s2 : OcdScope fl) (told clicked : List Command)
        → debug ≡ true
        → handle_messages fl s i.inbox ≡ ok (s1, told)
        → toolbar fl s1 i.clicks ≡ ok (s2, clicked)
        → export_picked fl display export_message true s2 i.picked ≢ panic

  -- The signals that the sampler is asked for after a frame.
  abbrev pub asked_by : List ℕ → Frame fl → List ℕ
  asked_by asked r = next_asked asked r.started r.calls r.to_new

  -- A frame that goes on in a well-formed state.
  abbrev pub GoesOn : Run (Frame fl) → List ℕ → Type 0
  GoesOn m asked = (r : Frame fl) × (m ≡ ok r) × IsWell fl ieee r.scope (asked_by asked r)

  dialogs-GoesOn :
      (s : OcdScope fl) (asked before : List ℕ) (i : Input fl) (calls : List Command)
      (sizes : Bytes × Bytes) (written : Written fl) (lines : List (Line fl))
      → IsWell fl ieee s asked
      → asked_after before calls ≡ asked
      → ((s : OcdScope fl) → start fl s i.connecting.starts ≢ panic)
      → GoesOn (dialogs fl display export_message debug s i calls sizes written lines) before
  unfolding dialogs
  dialogs-GoesOn s asked before i calls sizes written lines w same some_result =
      let s1 = stop_following fl i.plot.clicked s in
      let s2 = address_dialog fl s1 i.adding in
      let (r, e, well, _) =
        connect_dialog-Settles fl ieee debug s2 asked i.connecting
          (address_dialog-IsWell fl ieee s1 asked i.adding
            (stop_following-IsWell fl ieee i.plot.clicked s asked w))
          some_result in
      let to : next_asked asked r.1 r.2 r.3 ≡ next_asked before r.1 (calls ++ r.2) r.3 =
        ap (λ l. asked_after (if r.1 then [] else l) r.3)
          (sym (asked_after-append fl calls r.2 before ∙ ap (λ l. asked_after l r.2) same)) in
      (
        record {
          scope = error_dialog fl r.0 i.closed;
          calls = calls ++ r.2;
          started = r.1;
          to_new = r.3;
          sizes = sizes;
          written = written;
          lines = lines;
          bounds = followed fl s1;
        },
        rw e refl,
        error_dialog-IsWell fl ieee r.0 _ i.closed (subst (IsWell fl ieee r.0) to well),
      )

  panels-GoesOn :
      (s s0 : OcdScope fl) (asked before : List ℕ) (i : Input fl) (calls : List Command)
      → IsWell fl ieee s asked
      → asked_after before calls ≡ asked
      → IsFair s0 i
      → export_picked fl display export_message debug s i.picked ≢ panic
      → GoesOn (panels fl display export_message debug s i calls) before
  unfolding panels
  panels-GoesOn s s0 asked before i calls w same fair passes =
      let ((s1, written), exported, w0) =
        export_picked-Exports fl ieee display export_message debug s asked i.picked w passes in
      let s1' = set_controls fl s1 i.controls in
      let (s2, quiet) = list_signals fl s1' i.edits in
      let s2' = offer_address fl s2 i.offer_clicked in
      let s3 = stop_following fl i.controls.reset_clicked s2' in
      let asked' = asked_after asked quiet in
      let w1 = set_controls-IsWell fl ieee s1 asked i.controls w0 fair.clock in
      let w3 = stop_following-IsWell fl ieee i.controls.reset_clicked s2' asked' (
        offer_address-IsWell fl ieee s2 asked' i.offer_clicked
          (list_signals-IsWell fl ieee s1' asked i.edits w1)) in
      let lines =
        lines_of fl s3.signals s3.samples (drawn_from fl i.plot.x_min i.plot.x_max)
          (drawn_to fl i.plot.x_min i.plot.x_max) in
      let (r, e, well) =
        dialogs-GoesOn s3 asked' before i (calls ++ quiet) (sizes_shown fl s i.capacities) written
          lines w3 (asked_after-append fl calls quiet before ∙ ap (λ l. asked_after l quiet) same)
          fair.starts in
      (
        r,
        rw exported (
            ap
              (λ (m : Run (List (Line fl))). m >>= λ lines.
                dialogs fl display export_message debug s3 i (calls ++ quiet)
                  (sizes_shown fl s i.capacities) written lines)
              (draw-lines_of fl ieee s3 i.plot.x_min i.plot.x_max w3.clock fair.low fair.high
                fair.ordered w3.drawable)
            ∙ e),
        well,
      )

  assert_stops-passes :
      (passes : Bool) (calls : List Command)
      → (debug ≡ true → passes ≡ true)
      → assert_stops fl display export_message debug passes calls ≡ ok tt
  unfolding assert_stops
  assert_stops-passes passes [] h = refl
  assert_stops-passes passes (stop ∷ calls) h =
      rw (asserts debug passes h, assert_stops-passes passes calls h) refl
  assert_stops-passes passes (set_active ids ∷ calls) h = assert_stops-passes passes calls h
  assert_stops-passes passes (pause ∷ calls) h = assert_stops-passes passes calls h
  assert_stops-passes passes (resume ∷ calls) h = assert_stops-passes passes calls h

  export_passes :
      (s : OcdScope fl) (picked : Option (Option Bytes))
      → picked ≢ some none
      → (debug ≡ true → export_picked fl display export_message true s picked ≢ panic)
      → export_picked fl display export_message debug s picked ≢ panic
  export_passes s picked named h = elim (Bool-cases debug) [
    | inl e ↦ subst (λ b. export_picked fl display export_message b s picked ≢ panic) (sym e) (h e)
    | inr e ↦
        subst (λ b. export_picked fl display export_message b s picked ≢ panic) (sym e)
          (export_picked-release fl display export_message s picked named)
  ]

  pub update-GoesOn :
      (s : OcdScope fl) (asked : List ℕ) (i : Input fl)
      → IsWell fl ieee s asked
      → IsFair s i
      → GoesOn (update fl display export_message debug s i) asked
  unfolding update
  update-GoesOn s asked i w fair =
      let (s1, c1, e1, w1) =
        handle_messages-Goes fl ieee s asked i.inbox w fair.ascending fair.recent in
      let (s2, c2, e2, w2) = toolbar-Goes fl ieee s1 (asked_after asked c1) i.clicks w1 fair.once in
      let (r, e, well) =
        panels-GoesOn s2 s _ asked i (c1 ++ c2) w2 (asked_after-append fl c1 c2 asked) fair
          (export_passes s2 i.picked fair.named (λ d. fair.exports s1 s2 c1 c2 d e1 e2)) in
      (
        r,
        rw
            (
              e1,
              assert_stops-passes i.stop_passes c1 fair.stops,
              e2,
              assert_stops-passes i.stop_passes c2 fair.stops,
            )
            e,
        well,
      )

  -- The states that the application reaches from its start over fair frames.
  pub data Session : OcdScope fl → List ℕ → Type 0 where
    opened : Session (new fl) []
    framed :
        (s : OcdScope fl) (asked : List ℕ) (i : Input fl) (r : Frame fl)
        → Session s asked
        → IsFair s i
        → update fl display export_message debug s i ≡ ok r
        → Session r.scope (asked_by asked r)
