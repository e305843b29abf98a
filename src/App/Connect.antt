-- ===== src/App/Connect.antt =====
-- Connecting a sampler, the toolbar and the list of signals of src/main.rs. What is clicked in a frame
-- is an argument; each operation returns the commands that go to the sampler.
use ocdscope.Prelude.{
  ℕ, ◌++◌, Bool, true, false, not, ◌||◌, Option, none, some, List, [], ◌∷◌, if◌then◌else◌, Outcome,
  ok, err, panic, ◌>>=◌, expect,
}
use ocdscope.Text.{Bytes, codes}
use ocdscope.Float.{Floats}
use ocdscope.Sampler.{Status, sampling, paused}
use ocdscope.Sampler.Commands.{Command, set_active, pause, resume, stop}
use ocdscope.Buffer.{Run}
use ocdscope.App.{
  SamplingMethod, memory_sampling, rtt, simulated, Message, Handle, SignalConfig, OcdScope,
  new_signal, reset_buffer, any_dialog_visible, show_error, active_ids,
}

-- The `start` functions of the samplers, by what they are given: a rate; the addresses of the GDB
-- server and of OpenOCD, a rate and perhaps the name of an ELF file; the address of OpenOCD and a
-- polling interval. That of the fake sampler cannot fail.
pub record Starts (fl : Floats) : Type 0 where
  pub fake : fl.F64 → Handle
  pub memory : Bytes → Bytes → fl.F64 → Option Bytes → Outcome Message Handle
  pub from_rtt : Bytes → ℕ → Outcome Message Handle

-- What is clicked in the toolbar.
pub record Clicks : Type 0 where
  pub connect : Bool
  pub disconnect : Bool
  pub to_pause : Bool
  pub to_resume : Bool

-- What the row of a signal is left with: whether its box was clicked, its scale and its name.
pub record Edit (fl : Floats) : Type 0 where
  pub clicked : Bool
  pub new_scale : fl.F64
  pub new_name : Bytes

module _ (fl : Floats) where
  unfoldable pub start_by : SamplingMethod → OcdScope fl → Starts fl → Outcome Message Handle
  start_by simulated s starts = ok (starts.fake s.sample_rate)
  start_by memory_sampling s starts =
      starts.memory s.gdb_address s.telnet_address s.sample_rate s.elf_filename
  start_by rtt s starts = starts.from_rtt s.telnet_address s.rtt_polling_interval

  -- The sampler of the method that is set.
  unfoldable pub start : OcdScope fl → Starts fl → Outcome Message Handle
  unfolding start_by
  start s starts = start_by s.sampling_method s starts

  unfoldable pub to_signals : List (ℕ × Bytes) → List (SignalConfig fl)
  to_signals [] = []
  to_signals ((id, name) ∷ available) = new_signal fl id name ∷ to_signals available

  -- The first signal is enabled, and the sampler is asked for it.
  unfoldable pub enable_first : List (SignalConfig fl) → List (SignalConfig fl) × List Command
  enable_first [] = ([], [])
  enable_first (first ∷ signals) =
      (record first { enabled = true } ∷ signals, set_active (first.id ∷ []) ∷ [])

  unfoldable pub stop_previous : Option Handle → List Command
  stop_previous none = []
  stop_previous (some previous_sampler) = stop ∷ []

  -- The application after a connection, and the commands to the sampler before and to the new one.
  pub record Connected : Type 0 where
    pub scope : OcdScope fl
    pub to_previous : List Command
    pub to_new : List Command
    pub sampler : Outcome Message Handle

  -- What is done with what a `start` function returned.
  unfoldable pub connected_by : OcdScope fl → Outcome Message Handle → Connected
  unfolding to_signals enable_first stop_previous
  connected_by s (ok sampler) =
      let s' = reset_buffer fl s in
      let (signals, asked) = enable_first (to_signals sampler.available_signals) in
      record {
        scope = record s' { current_sampler = none; signals = signals };
        to_previous = stop_previous s'.current_sampler;
        to_new = asked;
        sampler = ok sampler;
      }
  connected_by s (err e) = record { scope = s; to_previous = []; to_new = []; sampler = err e }
  connected_by s panic = record { scope = s; to_previous = []; to_new = []; sampler = panic }

  unfoldable pub try_connect_sampler : OcdScope fl → Starts fl → Connected
  try_connect_sampler s starts = connected_by s (start s starts)

  -- The new sampler is taken over, or the error is shown.
  unfoldable pub take_over : Connected → Outcome Message Handle → Connected
  take_over c (ok sampler) = record c {
    scope = record (c.scope) { current_sampler = some sampler };
  }
  take_over c (err e) = record c {
    scope = show_error fl c.scope (codes "Failed to start sampler") e;
  }
  take_over c panic = c

  -- The "Connect" button of the dialog with the settings.
  unfoldable pub connect : OcdScope fl → Starts fl → Connected
  unfolding try_connect_sampler
  connect s starts =
      let c = try_connect_sampler (record s { show_connect_dialog = false }) starts in
      take_over c c.sampler

  -- The buttons that the status of the sampler offers.
  unfoldable pub pause_or_resume : Option Status → OcdScope fl → Clicks → Run (List Command)
  pause_or_resume (some sampling) s clicks =
      if clicks.to_pause then (expect s.current_sampler >>= λ _. ok (pause ∷ [])) else ok []
  pause_or_resume (some paused) s clicks =
      if clicks.to_resume then (expect s.current_sampler >>= λ _. ok (resume ∷ [])) else ok []
  pause_or_resume _ s clicks = ok []

  unfoldable pub disconnect : OcdScope fl → Clicks → OcdScope fl × List Command
  disconnect s clicks =
      if clicks.disconnect then (record s { current_sampler = none }, stop ∷ []) else (s, [])

  unfoldable pub toolbar_by :
      Option Handle → OcdScope fl → Clicks → Run (OcdScope fl × List Command)
  unfolding pause_or_resume disconnect
  toolbar_by none s clicks =
      ok (if clicks.connect then record s { show_connect_dialog = true } else s, [])
  toolbar_by (some _) s clicks =
      let (s', calls) = disconnect s clicks in
      pause_or_resume s'.current_sampler_status s' clicks >>= λ more. ok (s', calls ++ more)

  -- The toolbar takes clicks where no dialog is open.
  unfoldable pub toolbar : OcdScope fl → Clicks → Run (OcdScope fl × List Command)
  unfolding toolbar_by
  toolbar s clicks =
      if any_dialog_visible fl s then ok (s, []) else toolbar_by s.current_sampler s clicks

  unfoldable pub edit_signals :
      List (Edit fl) → List (SignalConfig fl) → List (SignalConfig fl) × Bool
  edit_signals (e ∷ edits) (signal ∷ signals) =
      let (rest, changed) = edit_signals edits signals in
      (
        record signal {
          enabled = if e.clicked then not signal.enabled else signal.enabled;
          scale = e.new_scale;
          name = e.new_name;
        }
            ∷ rest,
        e.clicked || changed,
      )
  edit_signals _ signals = (signals, false)

  unfoldable pub ask_active : Option Handle → List (SignalConfig fl) → Bool → List Command
  ask_active (some sampler) signals true = set_active (active_ids fl signals) ∷ []
  ask_active _ signals _ = []

  -- The list of signals in the sidebar.
  unfoldable pub list_signals : OcdScope fl → List (Edit fl) → OcdScope fl × List Command
  unfolding ask_active edit_signals
  list_signals s edits =
      let (signals, some_enable_changed) = edit_signals edits s.signals in
      (record s { signals = signals }, ask_active s.current_sampler signals some_enable_changed)
