-- ===== src/App.antt =====
-- The application, src/main.rs: its state, and the operations on its dialogs and signals. The two
-- dialogs for files are a library's, and are left out.
pub mod Active
pub mod Connect
pub mod Cutting
pub mod Following
pub mod Frame
pub mod Handling
pub mod Drawn
pub mod Messages
pub mod Notified
pub mod Picked
pub mod Plot
pub mod Delivery
pub mod Starting
pub mod Stored
mod Tests
pub mod Timed
pub mod Unasked
use ocdscope.Prelude.{
  ℕ, ◌++◌, ◌||◌, Bool, true, false, Option, none, some, List, [], ◌∷◌, map, if◌then◌else◌,
}
use ocdscope.Text.{Bytes, codes, format_hex}
use ocdscope.Float.{Floats}
use ocdscope.Sampler.{Status, Failure}
use ocdscope.Buffer.{SampleBuffer}

pub data SamplingMethod : Type 0 where
  memory_sampling rtt simulated : SamplingMethod

-- A text that is shown; one that is put together is kept as what it is made of.
pub data Message : Type 0 where
  text : Bytes → Message
  -- `{} samples/s`, of so many samples in so many nanoseconds
  rate : ℕ → ℕ → Message
  caused_by : Failure → Message

-- The handle of a sampler, a `Box<dyn Sampler>`. The calls of its other methods are the commands
-- that an operation returns.
pub record Handle : Type 0 where
  pub available_signals : List (ℕ × Bytes)

-- The colour of a signal is left out.
pub record SignalConfig (fl : Floats) : Type 0 where
  pub id : ℕ
  pub name : Bytes
  pub enabled : Bool
  pub scale : fl.F64

module _ (fl : Floats) where
  pub record OcdScope : Type 0 where
    pub show_connect_dialog : Bool
    pub show_add_address_dialog : Bool
    pub show_error_dialog : Bool
    pub error_title : Bytes
    pub error_message : Message
    pub plot_auto_follow : Bool
    pub plot_auto_follow_time : fl.F64
    pub buffer_auto_truncate : Bool
    pub buffer_auto_truncate_at : fl.F64
    pub sampling_method : SamplingMethod
    pub current_sampler : Option Handle
    pub current_sampler_status : Option Status
    pub last_sampler_info : Message
    pub signals : List (SignalConfig fl)
    pub samples : List (ℕ × SampleBuffer fl)
    pub max_time : ℕ
    pub gdb_address : Bytes
    pub elf_filename : Option Bytes
    pub telnet_address : Bytes
    pub sample_rate : fl.F64
    pub rtt_polling_interval : ℕ
    pub rtt_relative_time : Bool
    pub memory_address_to_add : ℕ

  -- `SignalConfig::new`
  unfoldable pub new_signal : ℕ → Bytes → SignalConfig fl
  new_signal id name = record { id = id; name = name; enabled = false; scale = fl.nat_f64 1 }

  unfoldable pub new : OcdScope
  new = record {
    show_connect_dialog = true;
    show_add_address_dialog = false;
    show_error_dialog = false;
    error_title = [];
    error_message = text [];
    plot_auto_follow = false;
    plot_auto_follow_time = fl.nat_f64 1;
    buffer_auto_truncate = true;
    buffer_auto_truncate_at = fl.nat_f64 10;
    sampling_method = simulated;
    current_sampler = none;
    current_sampler_status = none;
    last_sampler_info = text [];
    signals = [];
    samples = [];
    max_time = 0;
    gdb_address = codes "127.0.0.1:3333";
    elf_filename = none;
    telnet_address = codes "127.0.0.1:4444";
    sample_rate = fl.nat_f64 1000;
    rtt_polling_interval = 1;
    rtt_relative_time = false;
    memory_address_to_add = 0xBEEF1010;
  }

  unfoldable pub reset_buffer : OcdScope → OcdScope
  reset_buffer s = record s { samples = []; max_time = 0 }

  unfoldable pub any_dialog_visible : OcdScope → Bool
  any_dialog_visible s = s.show_add_address_dialog || s.show_connect_dialog || s.show_error_dialog

  unfoldable pub close_all_dialogs : OcdScope → OcdScope
  close_all_dialogs s = record s {
    show_add_address_dialog = false;
    show_connect_dialog = false;
    show_error_dialog = false;
  }

  unfoldable pub show_error : OcdScope → Bytes → Message → OcdScope
  unfolding close_all_dialogs
  show_error s title message = record (close_all_dialogs s) {
    error_title = title;
    error_message = message;
    show_error_dialog = true;
  }

  -- The ids of the signals that are enabled.
  unfoldable pub active_ids : List (SignalConfig fl) → List ℕ
  active_ids [] = []
  active_ids (signal ∷ signals) =
      let rest = active_ids signals in if signal.enabled then signal.id ∷ rest else rest

  -- The "Add" button of the dialog for an address.
  unfoldable pub add_address : OcdScope → OcdScope
  unfolding new_signal
  add_address s = record s {
    signals =
        s.signals
        ++ new_signal s.memory_address_to_add (codes "0x" ++ format_hex 8 s.memory_address_to_add)
          ∷ [];
    show_add_address_dialog = false;
  }
