-- ===== src/Rtt/Whole.antt =====
-- The whole thread of the RTT sampler (src/sampler/rttsampler.rs), from its start on.
use ocdscope.Prelude.{
  ℕ, ◌≡◌, refl, sym, ◌∙◌, inr, Bool, true, false, List, [], ◌∷◌, if◌then◌else◌, Outcome, ok, err,
  panic,
}
use mathlib.Core.Path.{subst}
use ocdscope.Text.{Bytes}
use ocdscope.Ttstream.{SysResult, failed, returned}
use ocdscope.Telnet.Lines.{TelnetInterface, Stop, raised, waiting, exhausted, Result}
use ocdscope.Telnet.Commands.{connect, rtt_server_start}
use ocdscope.Utils.{find_free_tcp_port}
use ocdscope.Float.{Floats}
use ocdscope.Sampler.{
  blocked, Status, initializing, info, Effect, notified, continue, finished, failed_with, waits,
  died, report, after, run,
}
use ocdscope.Sampler.Lifecycle.{statuses, statuses-append}
use ocdscope.Sampler.History.{Announces}
use ocdscope.Rtt.Packet.{RttScopePacketStructure}
use ocdscope.Rtt.Setup.{
  SyncError, halt_failed, resume_failed, read_nothing, read_failed, still_reading,
}
use ocdscope.Rtt.Sampler.{Thread, Round, round}
use ocdscope.Rtt.Lifecycle.{rtt-Announces}
use ocdscope.Rtt.Startup.{
  Startup, initial, stopped, unsynchronized, Beginning, inform, with_timeout, with_sync,
  with_stream, with_server, with_port, begin_with, begin, loop_after, sampler_thread,
}

module _ (fl : Floats) where
  -- A start announces no status; it ends with an error, or in the state before the first round.
  abbrev IsQuiet : Beginning fl → Type 0
  IsQuiet (es, continue t) = (statuses es ≡ []) × (t.status ≡ initializing)
  IsQuiet (es, finished) = ⊥
  IsQuiet (es, failed_with f) = statuses es ≡ []
  IsQuiet (es, waits t) = (statuses es ≡ []) × (t.status ≡ initializing)
  IsQuiet (es, blocked t) = (statuses es ≡ []) × (t.status ≡ initializing)
  IsQuiet (es, died t) = (statuses es ≡ []) × (t.status ≡ initializing)

  informed :
      (b : Bool) (message : Bytes) (es : List (Effect fl.F64))
      → statuses (if b then notified (info message) ∷ es else es) ≡ statuses es
  unfolding statuses
  informed true message es = refl
  informed false message es = refl

  inform-IsQuiet :
      (x : Startup) (message : Bytes) (b : Beginning fl)
      → IsQuiet b
      → IsQuiet (inform fl x message b)
  unfolding inform
  inform-IsQuiet x message (es, continue t) (quiet, e) =
      (informed x.notifications_open message es ∙ quiet, e)
  inform-IsQuiet x message (es, finished) h = h
  inform-IsQuiet x message (es, failed_with f) quiet =
      informed x.notifications_open message es ∙ quiet
  inform-IsQuiet x message (es, waits t) (quiet, e) =
      (informed x.notifications_open message es ∙ quiet, e)
  inform-IsQuiet x message (es, blocked t) (quiet, e) =
      (informed x.notifications_open message es ∙ quiet, e)
  inform-IsQuiet x message (es, died t) (quiet, e) =
      (informed x.notifications_open message es ∙ quiet, e)

  stopped-IsQuiet : (x : Startup) (e : Stop) → IsQuiet ([], stopped x e)
  unfolding stopped statuses initial
  stopped-IsQuiet x (raised e) = refl
  stopped-IsQuiet x waiting = (refl, refl)
  stopped-IsQuiet x exhausted = (refl, refl)

  unsynchronized-IsQuiet : (x : Startup) (e : SyncError) → IsQuiet ([], unsynchronized x e)
  unfolding unsynchronized statuses initial
  unsynchronized-IsQuiet x (halt_failed e) = stopped-IsQuiet x e
  unsynchronized-IsQuiet x (resume_failed e) = stopped-IsQuiet x e
  unsynchronized-IsQuiet x read_nothing = refl
  unsynchronized-IsQuiet x read_failed = refl
  unsynchronized-IsQuiet x still_reading = (refl, refl)

  with_timeout-IsQuiet : (x : Startup) (r : SysResult (Unit {0})) → IsQuiet (with_timeout fl x r)
  unfolding with_timeout statuses initial
  with_timeout-IsQuiet x (failed e) = refl
  with_timeout-IsQuiet x (returned _) = (refl, refl)

  with_sync-IsQuiet : (x : Startup) (r : Outcome SyncError (Unit {0})) → IsQuiet (with_sync fl x r)
  unfolding with_sync statuses initial
  with_sync-IsQuiet x (ok _) = inform-IsQuiet x _ _ (with_timeout-IsQuiet x x.timeout_set)
  with_sync-IsQuiet x (err e) = unsynchronized-IsQuiet x e
  with_sync-IsQuiet x panic = (refl, refl)

  with_stream-IsQuiet :
      (x : Startup) (t : TelnetInterface) (r : SysResult (Unit {0}))
      → IsQuiet (with_stream fl x t r)
  unfolding with_stream statuses
  with_stream-IsQuiet x t (failed e) = refl
  with_stream-IsQuiet x t (returned _) = inform-IsQuiet x _ _ (with_sync-IsQuiet x _)

  with_server-IsQuiet :
      (x : Startup) (r : TelnetInterface × Result (Unit {0})) → IsQuiet (with_server fl x r)
  unfolding with_server statuses initial
  with_server-IsQuiet x (t, ok _) = with_stream-IsQuiet x t x.stream
  with_server-IsQuiet x (t, err e) = stopped-IsQuiet x e
  with_server-IsQuiet x (t, panic) = (refl, refl)

  with_port-IsQuiet :
      (x : Startup) (t : TelnetInterface) (r : SysResult ℕ) → IsQuiet (with_port fl x t r)
  unfolding with_port statuses
  with_port-IsQuiet x t (failed e) = refl
  with_port-IsQuiet x t (returned port) =
      with_server-IsQuiet x (rtt_server_start x.asked_at port x.channel_id t)

  begin_with-IsQuiet : (x : Startup) (r : Result TelnetInterface) → IsQuiet (begin_with fl x r)
  unfolding begin_with statuses initial
  begin_with-IsQuiet x (ok t) = with_port-IsQuiet x t (find_free_tcp_port x.bound x.local_port)
  begin_with-IsQuiet x (err e) = stopped-IsQuiet x e
  begin_with-IsQuiet x panic = (refl, refl)

  begin-IsQuiet : (x : Startup) → IsQuiet (begin fl x)
  unfolding begin
  begin-IsQuiet x = begin_with-IsQuiet x (connect x.connection)

  module _ (st : RttScopePacketStructure) where
    abbrev status_of : Thread → Status
    status_of t = t.status

    quiet_before :
        (es : List (Effect fl.F64)) (r : Beginning fl)
        → statuses es ≡ []
        → Announces status_of (round fl st) initializing r
        → Announces status_of (round fl st) initializing (after es r)
    quiet_before es (es', continue t) e h = rw (statuses-append es es', e) h
    quiet_before es (es', finished) e h = rw (statuses-append es es', e) h
    quiet_before es (es', failed_with f) e h = rw (statuses-append es es', e) h
    quiet_before es (es', waits t) e h = rw (statuses-append es es', e) h
    quiet_before es (es', blocked t) e h = rw (statuses-append es es', e) h
    quiet_before es (es', died t) e h = rw (statuses-append es es', e) h

    loop_after-Announces :
        (rs : List Round) (b : Beginning fl)
        → IsQuiet b
        → Announces status_of (round fl st) initializing (loop_after fl st rs b)
    unfolding loop_after report statuses
    loop_after-Announces rs (es, continue t) (quiet, e) =
        quiet_before es (run (round fl st) rs t) quiet (
          subst (λ s. Announces status_of (round fl st) s (run (round fl st) rs t)) e
            (rtt-Announces fl st rs t))
    loop_after-Announces rs (es, finished) h = absurd h
    loop_after-Announces rs (es, failed_with f) quiet =
        quiet_before es (report f, failed_with f) quiet ((inr refl, tt), refl)
    loop_after-Announces rs (es, waits t) (quiet, e) = rw quiet (tt, sym e)
    loop_after-Announces rs (es, blocked t) (quiet, e) = rw quiet (tt, sym e)
    loop_after-Announces rs (es, died t) (quiet, e) = rw quiet (tt, sym e)

    -- Whatever its start and its rounds meet, the thread of the RTT sampler announces each change of its
    -- status from `Initializing` on, in an order in which the changes may follow one another; the last
    -- status announced is that of the thread while it goes on, waits or where it panicked, and
    -- `Terminated` once it has ended, also with an error before its loop.
    pub sampler_thread-Announces :
        (x : Startup) (rs : List Round)
        → Announces status_of (round fl st) initializing (sampler_thread fl st x rs)
    unfolding sampler_thread
    sampler_thread-Announces x rs = loop_after-Announces rs (begin fl x) (begin-IsQuiet x)
