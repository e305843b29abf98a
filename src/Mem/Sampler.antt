-- ===== src/Mem/Sampler.antt =====
-- The thread of the memory sampler (`sampler_thread` of src/sampler/memsampler.rs), one function for
-- each round of its loop. A round sleeps until the time of its sample; that only delays it, and is
-- not part of what it does.
use ocdscope.Prelude.{
  ℕ, ◌+◌, Bool, Option, none, some, List, [], ◌∷◌, if◌then◌else◌, ok, err, panic, ◌>>=◌, expect,
}
use ocdscope.Text.{codes}
use ocdscope.Ttstream.{Timestamp, Sending}
use ocdscope.Float.{Floats}
use ocdscope.Gdb.Packet.{Result}
use ocdscope.Gdb.Remote.{GdbRemote, send_packet}
use ocdscope.Sampler.{
  blocked, Status, initializing, sampling, paused, terminated, command_channel_closed, gdb_failed,
  sample_receiver_gone, Effect, sent, TryRecv, received, empty, disconnected, Next, finished,
  failed_with, waits, died, switch_status, conclude,
}
use ocdscope.Sampler.Commands.{Command, set_active, resume, wanted_by}
use ocdscope.Mem.Session.{
  waiting, ended, Session, Opening, open_session, Exchange, Gathered, gather, micros_since,
  averaged,
}

-- What a round meets: a command (`recv` in `Paused` has no command yet where it is `empty`), the
-- time, the sending of the GDB command in the first round, the readings of the addresses, and
-- whether the two receivers still exist, and whether the channel of samples has a place (a send waits
-- for one).
pub record Round : Type 0 where
  pub command : TryRecv Command
  pub now : ℕ
  pub sending : Sending
  pub exchanges : List Exchange
  pub samples_open : Bool
  pub has_place : Bool
  pub notifications_open : Bool

-- `start` is the system time in nanoseconds at which the thread began, and `period` the duration
-- between two samples.
pub record Thread : Type 0 where
  pub status : Status
  pub last_sampled_at : ℕ
  pub active_memory_addresses : List ℕ
  pub client : GdbRemote
  pub start : ℕ
  pub period : ℕ

-- The thread before its first round.
unfoldable pub start_thread : Opening → ℕ → ℕ → ℕ → Session Thread
unfolding open_session
start_thread o now start period = do
  client ← open_session o
  ok (record {
    status = initializing;
    last_sampled_at = now;
    active_memory_addresses = [];
    client = client;
    start = start;
    period = period;
  })

module _ (fl : Floats) where
  open fl use {F64}

  abbrev pub Step : Type 0
  Step = List (Effect F64) × Next Thread

  -- The end of a round that goes on.
  unfoldable pub settle : Thread → Round → Option Status → List (Effect F64) → Step
  unfolding conclude
  settle t r wanted es =
      conclude (λ s. record t { status = s }) t r.notifications_open (switch_status t.status wanted)
        es

  -- The time of a sample, in microseconds; without the two times the thread panics.
  unfoldable pub sample_time : Thread → Gathered fl → Session ℕ
  sample_time t x = do
    requested ← expect x.requested_at
    received_ ← expect x.received_at
    ok (averaged (micros_since t.start requested) (micros_since t.start received_))

  unfoldable pub send_sample : Thread → Round → Option Status → List (ℕ × F64) → Session ℕ → Step
  unfolding settle
  send_sample t r wanted samples (ok time) =
      if r.samples_open
      then (if r.has_place then settle t r wanted (sent (time, samples) ∷ []) else ([], blocked t))
      else ([], failed_with sample_receiver_gone)
  send_sample t r wanted samples (err h) = ([], died t)
  send_sample t r wanted samples panic = ([], died t)

  -- What is done with what the loop over the addresses gave; `t` is the thread before it.
  unfoldable pub after_gather : Thread → Round → Option Status → Session (Gathered fl) → Step
  unfolding send_sample
  after_gather t r wanted (err waiting) = ([], waits t)
  after_gather t r wanted (err (ended f)) = ([], failed_with f)
  after_gather t r wanted panic = ([], died t)
  after_gather t r wanted (ok x) =
      let t' = record t { client = x.client } in
      elim x.samples [
        | [] ↦ settle t' r wanted []
        | _ ∷ _ ↦ send_sample t' r wanted x.samples (sample_time t' x)
      ]

  unfoldable pub take_sample : Thread → Round → Option Status → Step
  unfolding after_gather
  take_sample t r wanted =
      let t' = record t { last_sampled_at = t.last_sampled_at + t.period } in
      after_gather t' r wanted
        (gather fl t'.client none none t'.active_memory_addresses r.exchanges)

  unfoldable pub in_sampling : Thread → Round → TryRecv Command → Step
  unfolding take_sample
  in_sampling t r disconnected = ([], failed_with command_channel_closed)
  in_sampling t r empty = take_sample t r none
  in_sampling t r (received (set_active addresses)) =
      take_sample (record t { active_memory_addresses = addresses }) r none
  in_sampling t r (received c) = take_sample t r (wanted_by sampling c)

  unfoldable pub in_paused : Thread → Round → TryRecv Command → Step
  unfolding settle
  in_paused t r disconnected = ([], failed_with command_channel_closed)
  in_paused t r empty = ([], waits t)
  in_paused t r (received (set_active addresses)) =
      settle (record t { active_memory_addresses = addresses }) r none []
  in_paused t r (received resume) =
      settle (record t { last_sampled_at = r.now }) r (wanted_by paused resume) []
  in_paused t r (received c) = settle t r (wanted_by paused c) []

  -- The target is told to go on.
  unfoldable pub in_initializing : Thread → Round → Result Timestamp → Step
  unfolding settle
  in_initializing t r (ok _) = settle (record t { last_sampled_at = r.now }) r (some sampling) []
  in_initializing t r (err e) = ([], failed_with (gdb_failed e))
  in_initializing t r panic = ([], died t)

  unfoldable pub round_in : Status → Thread → Round → Step
  unfolding in_initializing in_sampling in_paused
  round_in initializing t r = in_initializing t r (send_packet t.client (codes "c") r.sending)
  round_in sampling t r = in_sampling t r r.command
  round_in paused t r = in_paused t r r.command
  round_in terminated t r = ([], finished)

  unfoldable pub round : Thread → Round → Step
  unfolding round_in
  round t r = round_in t.status t r
