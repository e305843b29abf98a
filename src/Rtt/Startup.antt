-- ===== src/Rtt/Startup.antt =====
-- The start of the thread of the RTT sampler (`sampler_thread` of src/sampler/rttsampler.rs, up to its
-- loop), and the whole thread. What the system and OpenOCD give is an argument.
use ocdscope.Prelude.{ℕ, Bool, List, [], ◌∷◌, ◌++◌, if◌then◌else◌, Outcome, ok, err, panic}
use ocdscope.Text.{Bytes, codes}
use ocdscope.Ttstream.{SysResult, failed, returned}
use ocdscope.Utils.{find_free_tcp_port}
use ocdscope.Telnet.Lines.{TelnetInterface, Poll, Written, Stop, raised, waiting, exhausted, Result}
use ocdscope.Telnet.Commands.{connect, rtt_server_start}
use ocdscope.Float.{Floats}
use ocdscope.Sampler.{
  initializing, info, startup_failed, Effect, notified, Next, continue, failed_with, waits, died,
  report, after, run,
}
use ocdscope.Rtt.Packet.{RttScopePacketStructure}
use ocdscope.Rtt.Setup.{
  SyncError, halt_failed, resume_failed, read_nothing, read_failed, still_reading,
  synchronize_rtt_channel,
}
use ocdscope.Rtt.Sampler.{Thread, Round, round}

-- What the start meets: the connection to OpenOCD, a listener for a free port and its address, the
-- connection to the RTT server, the reads of its stream until it is empty, the set-up of its timeout,
-- whether the notifications are received, and the times of the commands and of the end.
pub record Startup : Type 0 where
  pub channel_id : ℕ
  pub connection : SysResult (List Poll × List Written)
  pub bound : SysResult (Unit {0})
  pub local_port : SysResult ℕ
  pub stream : SysResult (Unit {0})
  pub reads : List (SysResult Bytes)
  pub timeout_set : SysResult (Unit {0})
  pub notifications_open : Bool
  pub asked_at : ℕ
  pub synchronized_at : ℕ → ℕ
  pub now : ℕ

-- The thread before the first round of its loop.
unfoldable pub initial : Startup → Thread
initial x = record {
  status = initializing;
  buffer = [];
  previous_rate_measurement = x.now;
  rate_measurement_samples_received = 0;
}

-- The end of a start by a command to OpenOCD, or that it still waits for the answer.
unfoldable pub stopped : Startup → Stop → Next Thread
stopped x (raised e) = failed_with startup_failed
stopped x waiting = waits (initial x)
stopped x exhausted = waits (initial x)

unfoldable pub unsynchronized : Startup → SyncError → Next Thread
unfolding stopped
unsynchronized x (halt_failed e) = stopped x e
unsynchronized x (resume_failed e) = stopped x e
unsynchronized x read_nothing = failed_with startup_failed
unsynchronized x read_failed = failed_with startup_failed
unsynchronized x still_reading = waits (initial x)

module _ (fl : Floats) where
  open fl use {F64}

  abbrev pub Beginning : Type 0
  Beginning = List (Effect F64) × Next Thread

  -- The closure `info`; a failed send is only logged.
  unfoldable pub inform : Startup → Bytes → Beginning → Beginning
  inform x message (es, next) =
      (if x.notifications_open then notified (info message) ∷ es else es, next)

  unfoldable pub with_timeout : Startup → SysResult (Unit {0}) → Beginning
  with_timeout x (failed e) = ([], failed_with startup_failed)
  with_timeout x (returned _) = ([], continue (initial x))

  unfoldable pub with_sync : Startup → Outcome SyncError (Unit {0}) → Beginning
  unfolding inform with_timeout unsynchronized
  with_sync x (ok _) = inform x (codes "RTT stream synchronized") (with_timeout x x.timeout_set)
  with_sync x (err e) = ([], unsynchronized x e)
  with_sync x panic = ([], died (initial x))

  unfoldable pub with_stream : Startup → TelnetInterface → SysResult (Unit {0}) → Beginning
  unfolding inform with_sync
  with_stream x openocd (failed e) = ([], failed_with startup_failed)
  with_stream x openocd (returned _) =
      inform x (codes "RTT TCP stream connected")
        (with_sync x (synchronize_rtt_channel x.synchronized_at x.reads openocd).1)

  unfoldable pub with_server : Startup → TelnetInterface × Result (Unit {0}) → Beginning
  unfolding with_stream stopped
  with_server x (openocd, ok _) = with_stream x openocd x.stream
  with_server x (openocd, err e) = ([], stopped x e)
  with_server x (openocd, panic) = ([], died (initial x))

  unfoldable pub with_port : Startup → TelnetInterface → SysResult ℕ → Beginning
  unfolding with_server
  with_port x openocd (failed e) = ([], failed_with startup_failed)
  with_port x openocd (returned port) =
      with_server x (rtt_server_start x.asked_at port x.channel_id openocd)

  unfoldable pub begin_with : Startup → Result TelnetInterface → Beginning
  unfolding with_port stopped
  begin_with x (ok openocd) = with_port x openocd (find_free_tcp_port x.bound x.local_port)
  begin_with x (err e) = ([], stopped x e)
  begin_with x panic = ([], died (initial x))

  unfoldable pub begin : Startup → Beginning
  unfolding begin_with
  begin x = begin_with x (connect x.connection)

  module _ (st : RttScopePacketStructure) where
    -- The loop after the start, or the end of a thread that did not get there.
    unfoldable pub loop_after : List Round → Beginning → Beginning
    unfolding report
    loop_after rs (es, continue t) = after es (run (round fl st) rs t)
    loop_after rs (es, failed_with f) = (es ++ report f, failed_with f)
    loop_after rs (es, next) = (es, next)

    -- The closure that `start` spawns: the thread, by what its start and its rounds meet, and the
    -- report of its error.
    unfoldable pub sampler_thread : Startup → List Round → Beginning
    unfolding loop_after begin
    sampler_thread x rs = loop_after rs (begin x)
