-- ===== src/App/Delivery/Tests.antt =====
-- A fake sampler from its start on, whose messages come in two frames: it samples in the first one,
-- and has stopped in the second.
use ocdscope.Prelude.{ℕ, ◌≡◌, ◌≢◌, refl, true, Option, none, some, List, [], ◌∷◌, le→leb, arith}
use ocdscope.Float.Sample.{numbers, numbers-IsIeee}
use ocdscope.Sampler.{
  sampling, terminated, new_status, TryRecv, received, empty, run, run_on, conclude, switch_status,
  report, same_status,
}
use ocdscope.Sampler.Commands.{Command, set_active, stop, wanted_by}
use ocdscope.Sampler.Lifecycle.{statuses}
use ocdscope.Fake.{
  Waves, Round, pick, waves_at, send_sample, take_sample, settle, in_sampling, in_paused, round_in,
  round,
}
use ocdscope.App.{OcdScope, Handle, new}
use ocdscope.App.Messages.{Inbox, time}
use ocdscope.App.Timed.{IsClock, IsAscending}
use ocdscope.App.Following.{notifications_of, samples_of}
use ocdscope.App.Starting.{Started, fake, fake_thread, progress}
use ocdscope.App.Delivery.{notified_in, sampled_in, Delivered, started-Delivered}

abbrev whole : Option ℕ → ℕ
whole none = 0
whole (some n) = n

abbrev waves : Waves numbers
waves = record {
  sin = λ x. x;
  as_u64 = whole;
  mega = some 1_000_000;
  omega0 = some 1;
  omega1 = some 10;
  omega2 = some 100;
  period = 1_000_000_000;
  period_secs = some 1;
}

abbrev meets : TryRecv Command → Round
meets command = record {
  command = command;
  now = 5;
  samples_open = true;
  has_place = true;
  notifications_open = true;
}

-- It starts, is told the active signal, takes two samples, and stops.
abbrev begun : Started numbers
begun = fake waves 0 (
    meets empty
    ∷ meets (received (set_active (1 ∷ [])))
    ∷ meets empty
    ∷ meets empty
    ∷ meets (received stop)
    ∷ meets empty
    ∷ [])

abbrev inboxes : List (Inbox numbers)
inboxes =
    record {
      notifications = new_status sampling ∷ [];
      sampled = (1_000_000, (1, some 10) ∷ []) ∷ [];
    }
    ∷ record {
      notifications = new_status terminated ∷ [];
      sampled = (2_000_000, (1, some 20) ∷ []) ∷ [];
    }
    ∷ []

abbrev handle : Handle
handle = record { available_signals = [] }

abbrev scope : OcdScope numbers
scope = record (new numbers) {
  current_sampler = some handle;
  buffer_auto_truncate_at = some 10;
  samples = [];
  max_time = 0;
}

clock : IsClock numbers numbers-IsIeee (some 10)
unfolding time
clock = record {
  time-IsNumber = λ n. tt;
  time_mono = λ m n h. le→leb _ _ (omega arith);
  cutoff-IsNumber = λ n. tt;
}

notified : notified_in numbers inboxes ≡ notifications_of (progress numbers begun).0
unfolding notifications_of progress fake_thread run run_on conclude switch_status report round
    round_in in_sampling in_paused settle take_sample send_sample pick waves_at wanted_by
    same_status
notified = refl

sampled : sampled_in numbers inboxes ≡ samples_of (progress numbers begun).0
unfolding samples_of progress fake_thread run run_on conclude switch_status report round round_in
    in_sampling in_paused settle take_sample send_sample pick waves_at wanted_by same_status
sampled = refl

told : statuses (progress numbers begun).0 ≢ []
unfolding statuses progress fake_thread run run_on conclude switch_status report round round_in
    in_sampling in_paused settle take_sample send_sample pick waves_at wanted_by same_status
told e = cc

ascending : IsAscending numbers 0 (samples_of (progress numbers begun).0)
unfolding samples_of progress fake_thread run run_on conclude switch_status report round round_in
    in_sampling in_paused settle take_sample send_sample pick waves_at wanted_by same_status
ascending = (omega arith, (omega arith, tt))

started-Delivered_example :
    Delivered numbers numbers-IsIeee scope inboxes handle (progress numbers begun).1
started-Delivered_example =
    started-Delivered numbers numbers-IsIeee begun inboxes scope handle notified sampled clock refl
      told tt ascending
