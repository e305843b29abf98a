-- ===== src/App/Frame.antt =====
-- One frame of the window: `update` of src/main.rs, from the messages of the sampler to the dialogs.
-- What the user does in the frame, and what the libraries answer, is an argument.
mod Connecting
mod Dialogs
mod Filled
mod Quiet
mod Release
pub mod Session
mod Steps
mod Tests
use ocdscope.Prelude.{
  debug_assert, ℕ, ◌+◌, ◌*◌, ◌++◌, Bool, true, false, not, Option, none, some, List, [], ◌∷◌,
  if◌then◌else◌, length, Outcome, ok, err, panic, ◌>>=◌, ◌>>◌,
}
use ocdscope.Text.{Bytes}
use ocdscope.Float.{Floats}
use ocdscope.Sampler.Commands.{stop, Command}
use ocdscope.Utils.{human_readable_size}
use ocdscope.Export.{ExportError}
use ocdscope.Buffer.{SampleBuffer, Run, memory_footprint}
use ocdscope.App.{
  SamplingMethod, memory_sampling, rtt, simulated, Message, Handle, OcdScope, add_address,
}
use ocdscope.App.Messages.{Inbox, time, handle_messages}
use ocdscope.App.Connect.{Starts, Clicks, Edit, Connected, connect, toolbar, list_signals}
use ocdscope.App.Picked.{Written, export_picked}
use ocdscope.App.Plot.{Line, draw}

-- The controls of the sidebar: what is clicked, and the numbers that are left in the two fields.
pub record Controls (fl : Floats) : Type 0 where
  pub reset_clicked : Bool
  pub follow_clicked : Bool
  pub follow_time : fl.F64
  pub truncate_clicked : Bool
  pub truncate_at : fl.F64

-- The visible window of the plot, and whether the plot was clicked.
pub record PlotInput (fl : Floats) : Type 0 where
  pub x_min : fl.F64
  pub x_max : fl.F64
  pub clicked : Bool

-- The dialog for an address, and the dialog with the settings.
pub record AddressInput : Type 0 where
  pub address : ℕ
  pub cancelled : Bool
  pub added : Bool

-- What the fields of that dialog are left with, and whether the box in it was clicked.
pub record Settings (fl : Floats) : Type 0 where
  pub new_telnet_address : Bytes
  pub new_gdb_address : Bytes
  pub picked_elf : Option Bytes
  pub new_rate : fl.F64
  pub new_interval : ℕ
  pub relative_clicked : Bool

pub record ConnectInput (fl : Floats) : Type 0 where
  pub method : SamplingMethod
  pub settings : Settings fl
  pub cancelled : Bool
  pub connected : Bool
  pub starts : Starts fl

-- What a frame meets. `picked` is the extension of the file that was picked for an export, if it has
-- one, and that as text, if it is; `stop_passes` is whether the assertion in `stop` holds of a sampler
-- that is stopped: that its thread is finished, if it takes no command any more.
pub record Input (fl : Floats) : Type 0 where
  pub inbox : Inbox fl
  pub clicks : Clicks
  pub capacities : ℕ → ℕ
  pub picked : Option (Option Bytes)
  pub stop_passes : Bool
  pub controls : Controls fl
  pub edits : List (Edit fl)
  pub offer_clicked : Bool
  pub plot : PlotInput fl
  pub adding : AddressInput
  pub connecting : ConnectInput fl
  pub closed : Bool

-- What a frame leaves: the application, the commands to the sampler that it began with and to one
-- that was started in it, and what is shown or written.
pub record Frame (fl : Floats) : Type 0 where
  pub scope : OcdScope fl
  pub calls : List Command
  pub started : Bool
  pub to_new : List Command
  pub sizes : Bytes × Bytes
  pub written : Written fl
  pub lines : List (Line fl)
  pub bounds : Option (fl.F64 × fl.F64)

unfoldable pub is_none : Option Handle → Bool
is_none none = true
is_none (some sampler) = false

-- `matches!(sampling_method, SamplingMethod::MemorySamping)`
unfoldable pub reads_memory : SamplingMethod → Bool
reads_memory memory_sampling = true
reads_memory rtt = false
reads_memory simulated = false

abbrev toggled : Bool → Bool → Bool
toggled clicked b = if clicked then not b else b

module _ (fl : Floats) where
  open fl use {F64, sub}

  -- The bytes that the buffers use, and those that they hold, by the capacity of each.
  unfoldable pub memory_used : (ℕ → ℕ) → List (ℕ × SampleBuffer fl) → ℕ × ℕ
  memory_used capacities [] = (0, 0)
  memory_used capacities ((id, b) ∷ bs) =
      let (used, capacity) = memory_used capacities bs in
      let (bu, bc) = memory_footprint fl b (capacities id) in (used + bu, capacity + bc)

  unfoldable pub sizes_shown : OcdScope fl → (ℕ → ℕ) → Bytes × Bytes
  unfolding memory_used
  sizes_shown s capacities =
      let (used, capacity) = memory_used capacities s.samples in
      (human_readable_size used, human_readable_size capacity)

  -- The field behind a box can be edited where the box is checked.
  unfoldable pub set_controls : OcdScope fl → Controls fl → OcdScope fl
  set_controls s c =
      let follows = toggled c.follow_clicked s.plot_auto_follow in
      let truncates = toggled c.truncate_clicked s.buffer_auto_truncate in
      record s {
        plot_auto_follow = follows;
        plot_auto_follow_time = if follows then c.follow_time else s.plot_auto_follow_time;
        buffer_auto_truncate = truncates;
        buffer_auto_truncate_at = if truncates then c.truncate_at else s.buffer_auto_truncate_at;
      }

  -- The button that opens the dialog for an address, where the method reads memory.
  unfoldable pub offer_address : OcdScope fl → Bool → OcdScope fl
  unfolding reads_memory
  offer_address s clicked =
      if reads_memory s.sampling_method
      then (if clicked then record s { show_add_address_dialog = true } else s)
      else s

  -- The time window that the plot is set to while it follows: the last seconds before `max_time`.
  unfoldable pub followed : OcdScope fl → Option (F64 × F64)
  followed s =
      let x_max = time fl s.max_time in
      if s.plot_auto_follow then some (sub x_max s.plot_auto_follow_time, x_max) else none

  unfoldable pub stop_following : Bool → OcdScope fl → OcdScope fl
  stop_following test s = if test then record s { plot_auto_follow = false } else s

  unfoldable pub address_dialog : OcdScope fl → AddressInput → OcdScope fl
  address_dialog s i =
      let s' = record s {
        memory_address_to_add = i.address;
        show_add_address_dialog = not i.cancelled;
      } in
      if s.show_add_address_dialog then (if i.added then add_address fl s' else s') else s

  -- The application, whether a sampler was started, and the commands to the sampler before and to
  -- the new one.
  abbrev pub Settled : Type 0
  Settled = OcdScope fl × Bool × List Command × List Command

  -- A `start` function may panic.
  unfoldable pub settled : Connected fl → Outcome Message Handle → Run Settled
  settled c panic = panic
  settled c (ok sampler) = ok (c.scope, true, c.to_previous, c.to_new)
  settled c (err e) = ok (c.scope, false, c.to_previous, c.to_new)

  unfoldable pub press_connect : Bool → OcdScope fl → ConnectInput fl → Run Settled
  unfolding settled is_none
  press_connect debug s i =
      debug_assert debug (is_none s.current_sampler)
      >> (let c = connect fl s i.starts in settled c c.sampler)

  unfoldable pub picked_or : Option Bytes → Option Bytes → Option Bytes
  picked_or none filename = filename
  picked_or (some path) filename = some path

  -- The fields that the dialog has for each method.
  unfoldable pub set_settings : SamplingMethod → Settings fl → OcdScope fl → OcdScope fl
  unfolding picked_or
  set_settings memory_sampling e s = record s {
    telnet_address = e.new_telnet_address;
    gdb_address = e.new_gdb_address;
    elf_filename = picked_or e.picked_elf s.elf_filename;
    sample_rate = e.new_rate;
  }
  set_settings rtt e s = record s {
    telnet_address = e.new_telnet_address;
    rtt_polling_interval = e.new_interval;
    rtt_relative_time = toggled e.relative_clicked s.rtt_relative_time;
  }
  set_settings simulated e s = record s { sample_rate = e.new_rate }

  unfoldable pub connect_dialog : Bool → OcdScope fl → ConnectInput fl → Run Settled
  unfolding press_connect set_settings
  connect_dialog debug s i =
      let s' = record (set_settings i.method i.settings s) {
        sampling_method = i.method;
        show_connect_dialog = not i.cancelled;
      } in
      if s.show_connect_dialog
      then (if i.connected then press_connect debug s' i else ok (s', false, [], []))
      else ok (s, false, [], [])

  unfoldable pub error_dialog : OcdScope fl → Bool → OcdScope fl
  error_dialog s closed =
      if s.show_error_dialog
      then (if closed then record s { show_error_dialog = false } else s)
      else s

  module _ (display : F64 → Bytes) (export_message : ExportError → Message) (debug : Bool) where
    -- What stands below the plot, and the end of the frame.
    unfoldable pub dialogs :
        OcdScope fl
        → Input fl
        → List Command
        → Bytes × Bytes
        → Written fl
        → List (Line fl)
        → Run (Frame fl)
    unfolding stop_following followed address_dialog connect_dialog error_dialog
    dialogs s i calls sizes written lines = do
      let s1 = stop_following i.plot.clicked s
      r ← connect_dialog debug (address_dialog s1 i.adding) i.connecting
      ok (record {
        scope = error_dialog r.0 i.closed;
        calls = calls ++ r.2;
        started = r.1;
        to_new = r.3;
        sizes = sizes;
        written = written;
        lines = lines;
        bounds = followed s1;
      })

    -- The sidebar and the plot, behind the toolbar.
    unfoldable pub panels : OcdScope fl → Input fl → List Command → Run (Frame fl)
    unfolding dialogs stop_following offer_address set_controls sizes_shown
    panels s i calls = export_picked fl display export_message debug s i.picked >>= λ exported.
        let (s2, asked) = list_signals fl (set_controls exported.0 i.controls) i.edits in
        let s3 = stop_following i.controls.reset_clicked (offer_address s2 i.offer_clicked) in
        draw fl s3 i.plot.x_min i.plot.x_max >>= λ lines.
        dialogs s3 i (calls ++ asked) (sizes_shown s i.capacities) exported.1 lines

    -- The assertion in each `stop` among the commands. It is made before the samples of the messages
    -- would be read, which are not read where the sampler is stopped, and `stop` then waits for the
    -- end of the thread.
    unfoldable pub assert_stops : Bool → List Command → Run (Unit {0})
    assert_stops passes [] = ok tt
    assert_stops passes (stop ∷ calls) = debug_assert debug passes >> assert_stops passes calls
    assert_stops passes (_ ∷ calls) = assert_stops passes calls

    unfoldable pub update : OcdScope fl → Input fl → Run (Frame fl)
    unfolding panels assert_stops
    update s i = do
      told ← handle_messages fl s i.inbox
      _ ← assert_stops i.stop_passes told.1
      clicked ← toolbar fl told.0 i.clicks
      _ ← assert_stops i.stop_passes clicked.1
      panels clicked.0 i (told.1 ++ clicked.1)
