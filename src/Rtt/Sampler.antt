-- ===== src/Rtt/Sampler.antt =====
-- The thread of the RTT sampler (`sampler_thread` of src/sampler/rttsampler.rs), one function for
-- each round of its loop. A round takes what the channels and the RTT stream give it.
use ocdscope.Prelude.{
  ℕ, zero, suc, ◌+◌, ◌-◌, Bool, true, false, Option, none, some, List, [], ◌∷◌, ◌++◌, map, ltb, leb,
  if◌then◌else◌, length, take, drop, Outcome, ok, err, panic,
}
use ocdscope.Text.{Bytes}
use ocdscope.Ttstream.{SysResult, failed, returned}
use ocdscope.Float.{Floats}
use ocdscope.Sampler.{
  blocked, Status, initializing, sampling, paused, terminated, same_status, Failure,
  command_channel_closed, remote_closed, packet_decode_failed, timestamp_not_provided,
  sample_receiver_gone, server_stop_failed, still_running, panicked, rate_info, Sample, Effect,
  sent, notified, TryRecv, received, empty, disconnected, Next, finished, failed_with, died,
  ends_with, switch_status, conclude,
}
use ocdscope.Rtt.Packet.{RttScopePacketStructure, packet_size, decode_bytes, Maybe}

pub data ThreadCommand : Type 0 where
  pause resume stop : ThreadCommand

pub record Thread : Type 0 where
  pub status : Status
  pub buffer : Bytes
  pub previous_rate_measurement : ℕ
  pub rate_measurement_samples_received : ℕ

-- What a round meets: a command, what the RTT stream gives, the time at its end (and, in the first
-- round, at its start), whether the two receivers still exist, for how many samples their channel has
-- places (or `none`, where there is one for each), and whether OpenOCD obeys at the end.
pub record Round : Type 0 where
  pub command : TryRecv ThreadCommand
  pub reading : SysResult Bytes
  pub now : ℕ
  pub samples_open : Bool
  pub places : Option ℕ
  pub notifications_open : Bool
  pub server_stops : Bool

-- The status that a command asks for; a command that does not fit the status is only logged.
unfoldable pub obey : Status → ThreadCommand → Option Status
obey status stop = some terminated
obey sampling pause = some paused
obey paused resume = some sampling
obey _ _ = none

-- `values.into_iter().enumerate()`, from index `i` on.
unfoldable pub enumerate {ℓ} : {A : Type ℓ} → ℕ → List A → List (ℕ × A)
enumerate i [] = []
enumerate i (x ∷ xs) = (i, x) ∷ enumerate (i + 1) xs

-- The buffer with what was read, or a reason to stop.
unfoldable pub extend_buffer : Bytes → SysResult Bytes → Outcome Failure Bytes
extend_buffer buffer (returned []) = err remote_closed
extend_buffer buffer (returned (b ∷ s)) = ok (buffer ++ b ∷ s)
extend_buffer buffer (failed e) = ok buffer

module _ (fl : Floats) where
  -- The sample of a decoded packet. A packet without a time is an error.
  unfoldable pub to_sample : Maybe (Option ℕ × List fl.F32) → Outcome Failure (Sample fl.F64)
  to_sample (ok (some time, values)) = ok (time, enumerate 0 (map fl.widen values))
  to_sample (ok (none, values)) = err timestamp_not_provided
  to_sample (err e) = err packet_decode_failed
  to_sample panic = panic

  -- What the loop over the packets of the buffer leaves.
  pub record Drained : Type 0 where
    pub samples : List (Sample fl.F64)
    pub rest : Bytes
    pub count : ℕ
    pub failure : Option Failure

  abbrev ended : Bytes → ℕ → Option Failure → Drained
  ended rest count failure = record { samples = []; rest = rest; count = count; failure = failure }

  abbrev pub add_sample : Sample fl.F64 → Drained → Drained
  add_sample x d = record d { samples = x ∷ d.samples }

  module _ (st : RttScopePacketStructure) where
    -- `while buffer.len() >= packet_size`, for a status that is `Sampling` or not.
    unfoldable pub drain : ℕ → Bool → Bool → Bytes → ℕ → Drained
    drain zero is_sampling open_ buffer count = ended buffer count (some still_running)
    drain (suc fuel) is_sampling open_ buffer count = elim (leb (packet_size st) (length buffer)) [
      | false ↦ ended buffer count none
      | true ↦ elim is_sampling [
        | false ↦ drain fuel false open_ (drop (packet_size st) buffer) (count + 1)
        | true ↦ elim (to_sample (decode_bytes fl st (take (packet_size st) buffer))) [
          | err e ↦ ended buffer count (some e)
          | panic ↦ ended buffer count (some panicked)
          | ok x ↦ elim open_ [
            | false ↦ ended buffer count (some sample_receiver_gone)
            | true ↦ add_sample x (drain fuel true true (drop (packet_size st) buffer) (count + 1))
          ]
        ]
      ]
    ]

    -- Once a second the rate is notified; a failed send is only logged.
    unfoldable pub measure : Thread → Round → Thread × List (Effect fl.F64)
    measure t r =
        let elapsed = r.now - t.previous_rate_measurement in
        if ltb elapsed 1_000_000_000 then (t, []) else (
          record t { rate_measurement_samples_received = 0; previous_rate_measurement = r.now },
          if r.notifications_open
              then notified (rate_info t.rate_measurement_samples_received elapsed) ∷ []
              else [],
        )

    -- The end of a round that goes on.
    unfoldable pub settle :
        Thread → Bool → Option Status → List (Effect fl.F64) → List (Effect fl.F64) × Next Thread
    unfolding conclude
    settle t open_ wanted es = conclude (λ s. record t { status = s }) t open_ wanted es

    unfoldable pub after_sends :
        Thread → Round → Option Status → Drained → List (Effect fl.F64) × Next Thread
    after_sends t r wanted d = elim d.failure [
      | some f ↦ (map sent d.samples, ends_with t f)
      | none ↦
          let (t', info) =
            measure (record t { buffer = d.rest; rate_measurement_samples_received = d.count }) r in
          settle t' r.notifications_open (switch_status t.status wanted)
            (map sent d.samples ++ info)
    ]

    -- The samples are sent one after another; the first one for which there is no place blocks the
    -- thread.
    unfoldable pub after_drain :
        Thread → Round → Option Status → Drained → List (Effect fl.F64) × Next Thread
    unfolding after_sends
    after_drain t r wanted d = elim r.places [
      | none ↦ after_sends t r wanted d
      | some n ↦
          if leb (length d.samples) n
          then after_sends t r wanted d
          else (map sent (take n d.samples), blocked t)
    ]

    unfoldable pub after_command :
        Thread → Round → Option Status → List (Effect fl.F64) × Next Thread
    after_command t r wanted = elim (extend_buffer t.buffer r.reading) [
      | err f ↦ ([], failed_with f)
      | panic ↦ ([], died t)
      | ok buffer ↦ after_drain t r wanted (
          drain (suc (length buffer)) (same_status t.status sampling) r.samples_open buffer
            t.rate_measurement_samples_received)
    ]

    -- `Status::Sampling | Status::Paused`
    unfoldable pub work :
        Thread → Round → TryRecv ThreadCommand → List (Effect fl.F64) × Next Thread
    work t r disconnected = ([], failed_with command_channel_closed)
    work t r empty = after_command t r none
    work t r (received c) = after_command t r (obey t.status c)

    unfoldable pub round_in : Status → Thread → Round → List (Effect fl.F64) × Next Thread
    round_in initializing t r =
        settle (record t { previous_rate_measurement = r.now }) r.notifications_open
          (switch_status t.status (some sampling)) []
    round_in sampling t r = work t r r.command
    round_in paused t r = work t r r.command
    round_in terminated t r =
        ([], if r.server_stops then finished else failed_with server_stop_failed)

    unfoldable pub round : Thread → Round → List (Effect fl.F64) × Next Thread
    unfolding round_in
    round t r = round_in t.status t r
