-- ===== src/Rtt/Setup.antt =====
-- The set-up of RTT by `RTTSampler::start`, and `synchronize_rtt_channel`, of
-- src/sampler/rttsampler.rs. `at` gives the time of each command to OpenOCD.
use ocdscope.Prelude.{
  ℕ, ◌*◌, ◌++◌, Bool, false, Option, none, some, List, [], ◌∷◌, map, if◌then◌else◌, Outcome, ok,
  err, panic,
}
use ocdscope.Text.{Bytes, codes, contains, lower_byte, format_uint}
use ocdscope.Ttstream.{would_block, timed_out, other, SysResult, failed, returned}
use ocdscope.Telnet.Lines.{TelnetInterface, Stop, raised, timeout, Result, Act, ◌>>=◌, ◌>>◌}
use ocdscope.Telnet.Channels.{RttChannel, up, down}
use ocdscope.Telnet.Commands
use ocdscope.Rtt.Packet.{
  RttScopePacketFieldType, boolean, float, signed, unsigned, RttScopePacketField,
  RttScopePacketStructure, parse_scope_packet_structure,
}
use ocdscope.Rtt.Sampler.{enumerate}

unfoldable pub set_timeout : ℕ → Act (Unit {0})
set_timeout t i = (Commands.set_timeout t i, ok tt)

-- The commands of the set-up, up to the list of channels.
unfoldable pub set_up : (ℕ → ℕ) → ℕ → Act (List RttChannel)
unfolding set_timeout
set_up at polling_interval = do
  Commands.rtt_stop (at 0)
  set_timeout 2_000_000_000
  Commands.rtt_setup (at 1) 0x2000_0000 (128 * 1024) (codes "SEGGER RTT")
  _ ← Commands.rtt_start (at 2)
  _ ← Commands.set_adapter_speed (at 3) 1_000_000
  Commands.set_rtt_polling_interval (at 4) polling_interval
  Commands.rtt_channels (at 5)

-- Only letters of ASCII become letters of `scope` in lower case.
unfoldable pub is_candidate : RttChannel → Bool
is_candidate channel = elim channel.direction [
  | up ↦ contains (codes "scope") (map lower_byte channel.name)
  | down ↦ false
]

-- The first candidate.
unfoldable pub pick_channel : List RttChannel → Option RttChannel
unfolding is_candidate
pick_channel [] = none
pick_channel (channel ∷ channels) =
    let rest = pick_channel channels in if is_candidate channel then some channel else rest

-- Why a sampler does not start.
pub data StartError : Type 0 where
  command_failed : Stop → StartError
  no_channel not_parsed : StartError

unfoldable pub structure_of : RttChannel → Outcome StartError (RttChannel × RttScopePacketStructure)
structure_of channel = elim (parse_scope_packet_structure channel.name) [
  | ok structure ↦ ok (channel, structure)
  | err _ ↦ err not_parsed
  | panic ↦ panic
]

unfoldable pub choose :
    Outcome Stop (List RttChannel) → Outcome StartError (RttChannel × RttScopePacketStructure)
unfolding pick_channel structure_of
choose (err e) = err (command_failed e)
choose panic = panic
choose (ok channels) = elim (pick_channel channels) [
  | none ↦ err no_channel
  | some channel ↦ structure_of channel
]

unfoldable pub type_name : RttScopePacketFieldType → Bytes
type_name boolean = codes "Boolean"
type_name float = codes "Float"
type_name signed = codes "Signed"
type_name unsigned = codes "Unsigned"

unfoldable pub signal_name : ℕ → RttScopePacketField → Bytes
unfolding type_name
signal_name i field =
    codes "y"
    ++ format_uint i
    ++ codes " ("
    ++ type_name field.type_
    ++ codes ", "
    ++ format_uint field.size
    ++ codes " bytes)"

-- The signals of a structure: each field with its index.
unfoldable pub available_signals : RttScopePacketStructure → List (ℕ × Bytes)
unfolding signal_name
available_signals structure =
    map (λ (x : ℕ × RttScopePacketField). (x.0, signal_name x.0 x.1)) (enumerate 0 structure.fields)

-- Why the channel is not synchronized; it may still wait for the stream.
pub data SyncError : Type 0 where
  halt_failed : Stop → SyncError
  resume_failed : Stop → SyncError
  read_nothing read_failed still_reading : SyncError

-- The loop that throws away what the stream holds, until nothing comes in time.
unfoldable pub throw_away : List (SysResult Bytes) → Outcome SyncError (Unit {0})
throw_away [] = err still_reading
throw_away (returned [] ∷ rs) = err read_nothing
throw_away (returned (b ∷ bytes) ∷ rs) = throw_away rs
throw_away (failed would_block ∷ rs) = ok tt
throw_away (failed timed_out ∷ rs) = ok tt
throw_away (failed (other e) ∷ rs) = err read_failed

-- A target that does not halt in time is taken as halted.
unfoldable pub halted : Result (Unit {0}) → Outcome SyncError (Unit {0})
halted (ok _) = ok tt
halted (err (raised timeout)) = ok tt
halted (err e) = err (halt_failed e)
halted panic = panic

unfoldable pub resumed :
    TelnetInterface × Result (Unit {0}) → TelnetInterface × Outcome SyncError (Unit {0})
resumed (t, ok _) = (t, ok tt)
resumed (t, err e) = (t, err (resume_failed e))
resumed (t, panic) = (t, panic)

-- The target goes on once the stream is empty.
unfoldable pub after_halt :
    (ℕ → ℕ)
    → List (SysResult Bytes)
    → TelnetInterface
    → Outcome SyncError (Unit {0})
    → TelnetInterface × Outcome SyncError (Unit {0})
unfolding throw_away resumed
after_halt at reads t (err e) = (t, err e)
after_halt at reads t panic = (t, panic)
after_halt at reads t (ok _) = elim (throw_away reads) [
  | ok _ ↦ resumed (Commands.resume (at 1) t)
  | err e ↦ (t, err e)
  | panic ↦ (t, panic)
]

unfoldable pub synchronize_rtt_channel :
    (ℕ → ℕ)
    → List (SysResult Bytes)
    → TelnetInterface
    → TelnetInterface × Outcome SyncError (Unit {0})
unfolding after_halt halted
synchronize_rtt_channel at reads t =
    let (t', r) = Commands.halt (at 0) t in after_halt at reads t' (halted r)
