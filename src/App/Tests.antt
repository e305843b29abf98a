-- ===== src/App/Tests.antt =====
-- The theorems on the application at concrete inputs.
use ocdscope.Prelude.{
  ℕ, ◌≡◌, ◌≢◌, refl, true, false, Option, none, some, List, [], ◌∷◌, ok, le→leb, arith,
}
use ocdscope.Text.{codes}
use ocdscope.Ttstream.{returned}
use ocdscope.Float.Sample.{numbers, numbers-IsIeee}
use ocdscope.Sampler.{
  sampling, terminated, same_status, new_status, error, command_channel_closed, disconnected,
  Sample, report, run_on, run,
}
use ocdscope.Sampler.Commands.{stop}
use ocdscope.Rtt.Packet.{RttScopePacketStructure}
use ocdscope.Rtt.Sampler.{Thread, Round, work, round_in, round}
use ocdscope.App.{OcdScope, Handle, new, active_ids, add_address}
use ocdscope.App.Messages.{Inbox, time, handle_messages}
use ocdscope.App.Notified.{statuses_in, ends}
use ocdscope.App.Timed.{IsClock, IsAscending, AreTimed}
use ocdscope.App.Handling.{Received, Dropped, handle_messages-Received, handle_messages-Dropped}
use ocdscope.Sampler.History.{end_status}
use ocdscope.App.Following.{samples_of, inbox_of, Follows, rtt-Follows}
use ocdscope.App.Plot.{margin, drawn_from, drawn_to, draw}
use ocdscope.App.Drawn.{AreDrawable, lines_of, draw-lines_of}
use ocdscope.App.Connect.{Starts, Edit}

numbers-IsClock : IsClock numbers numbers-IsIeee (some 10)
unfolding time
numbers-IsClock = record {
  time-IsNumber = λ n. tt;
  time_mono = λ m n h. le→leb _ _ (omega arith);
  cutoff-IsNumber = λ n. tt;
}

abbrev handle : Handle
handle = record { available_signals = (0, codes "a") ∷ (1, codes "b") ∷ [] }

abbrev scope : OcdScope numbers
scope = record {
  show_connect_dialog = false;
  show_add_address_dialog = false;
  show_error_dialog = false;
  error_title = [];
  error_message = ocdscope.App.text [];
  plot_auto_follow = false;
  plot_auto_follow_time = some 1;
  buffer_auto_truncate = true;
  buffer_auto_truncate_at = some 10;
  sampling_method = ocdscope.App.simulated;
  current_sampler = some handle;
  current_sampler_status = some sampling;
  last_sampler_info = ocdscope.App.text [];
  signals = [];
  samples = (0, record { samples = record { x = some 3; y = some 7 } ∷ [] }) ∷ [];
  max_time = 4;
  gdb_address = [];
  elf_filename = none;
  telnet_address = [];
  sample_rate = some 1000;
  rtt_polling_interval = 1;
  rtt_relative_time = false;
  memory_address_to_add = 5;
}

scope-AreTimed : AreTimed numbers 4 scope.samples
unfolding time
scope-AreTimed = ((3, refl, omega arith, omega arith), tt)

abbrev arriving : List (Sample (Option ℕ))
arriving = (5, (0, some 1) ∷ (1, some 2) ∷ []) ∷ (20, (0, some 3) ∷ []) ∷ []

abbrev inbox : Inbox numbers
inbox = record { notifications = error command_channel_closed ∷ []; sampled = arriving }

inbox-ends : ends (statuses_in inbox.notifications) ≡ false
unfolding ends statuses_in
inbox-ends = refl

handle_messages-Received_example :
    (s' : OcdScope numbers) × (handle_messages numbers scope inbox ≡ ok (s', []))
    × Received numbers scope inbox s'
handle_messages-Received_example =
    handle_messages-Received numbers numbers-IsIeee scope inbox handle numbers-IsClock refl
      inbox-ends scope-AreTimed (omega arith, (omega arith, tt))

abbrev last_inbox : Inbox numbers
last_inbox = record inbox {
  notifications = error command_channel_closed ∷ new_status terminated ∷ [];
}

last_inbox-ends : ends (statuses_in last_inbox.notifications) ≡ true
unfolding ends statuses_in same_status
last_inbox-ends = refl

handle_messages-Dropped_example :
    (s' : OcdScope numbers) × (handle_messages numbers scope last_inbox ≡ ok (s', stop ∷ []))
    × Dropped numbers scope last_inbox s'
handle_messages-Dropped_example =
    handle_messages-Dropped numbers scope last_inbox handle refl last_inbox-ends

abbrev structure : RttScopePacketStructure
structure = record { has_u32_us_time = true; fields = [] }

abbrev thread : Thread
thread = record {
  status = sampling;
  buffer = [];
  previous_rate_measurement = 0;
  rate_measurement_samples_received = 0;
}

abbrev rounds : List Round
rounds =
    record {
      command = disconnected;
      reading = returned (9 ∷ 0 ∷ 0 ∷ 0 ∷ []);
      now = 1;
      samples_open = true;
      places = some 4;
      notifications_open = true;
      server_stops = true;
    }
    ∷ []

sampling-ne : sampling ≢ terminated
sampling-ne e = cc

rounds-IsAscending :
    IsAscending numbers 4 (samples_of (run (round numbers structure) rounds thread).0)
unfolding samples_of run run_on round round_in work report
rounds-IsAscending = tt

rtt-Follows_example :
    Follows numbers numbers-IsIeee scope
      (inbox_of numbers (run (round numbers structure) rounds thread).0)
      handle
      (end_status (λ (t : Thread). t.status) (run (round numbers structure) rounds thread).1)
rtt-Follows_example =
    rtt-Follows numbers numbers-IsIeee structure rounds thread scope handle numbers-IsClock refl
      refl sampling-ne scope-AreTimed rounds-IsAscending

abbrev starts : Starts numbers
starts = record {
  fake = λ rate. handle;
  memory = λ a b rate elf. ok handle;
  from_rtt = λ a interval. ok handle;
}

abbrev edits : List (Edit numbers)
edits =
    record { clicked = false; new_scale = some 1; new_name = codes "a" }
    ∷ record { clicked = true; new_scale = some 2; new_name = codes "c" }
    ∷ []

abbrev drawing : OcdScope numbers
drawing = record scope {
  signals =
      record { id = 0; name = codes "a"; enabled = true; scale = some 2 }
      ∷ record { id = 1; name = codes "b"; enabled = true; scale = some 1 }
      ∷ [];
}

drawing-AreDrawable : AreDrawable numbers 4 drawing.samples
drawing-AreDrawable = ((λ e. cc, scope-AreTimed.0), tt)

window-ordered :
    numbers.le (drawn_from numbers (some 2) (some 6)) (drawn_to numbers (some 2) (some 6)) ≡ true
unfolding drawn_from drawn_to margin
window-ordered = refl

low_end : numbers-IsIeee.IsNumber (drawn_from numbers (some 2) (some 6))
unfolding drawn_from margin
low_end = tt

high_end : numbers-IsIeee.IsNumber (drawn_to numbers (some 2) (some 6))
unfolding drawn_to margin
high_end = tt

draw-lines_of_example :
    draw numbers drawing (some 2) (some 6)
    ≡ ok (
        lines_of numbers drawing.signals drawing.samples
          (drawn_from numbers (some 2) (some 6))
          (drawn_to numbers (some 2) (some 6)))
draw-lines_of_example =
    draw-lines_of numbers numbers-IsIeee drawing (some 2) (some 6) numbers-IsClock low_end high_end
      window-ordered drawing-AreDrawable
