-- ===== src/Telnet/Commands.antt =====
-- The commands to OpenOCD: the public half of `TelnetInterface` in
-- src/openocd/telnet_interface.rs. Each takes the time at which it is called.
use ocdscope.Prelude.{
  ℕ, zero, suc, ◌+◌, Bool, true, false, Option, none, some, List, [], ◌∷◌, ◌++◌, ok, err, panic,
}
use ocdscope.Text.{
  Bytes, codes, same, starts_with, contains, strip_suffix, split, first_piece, last_piece,
  from_utf8, from_str_radix, format_uint, max_u32, max_usize,
}
use ocdscope.Ttstream.{SysResult, failed, returned}
use ocdscope.Telnet.Lines.{
  io_error, unexpected_response, Poll, Written, TelnetInterface, raised, exhausted, Result, Act,
  ◌>>=◌, ◌>>◌, pure, fail, wait_prompt, read_line, expect_line_with, wait_line_with, write_command,
  budget,
}
use ocdscope.Telnet.Channels.{RttChannel, parse_rtt_channels}

abbrev pub default_timeout : ℕ
default_timeout = 200_000_000

-- What is to come from a new connection.
unfoldable pub connect : SysResult (List Poll × List Written) → Result TelnetInterface
connect (failed e) = err (raised (io_error e))
connect (returned (polls, writes)) = ok (record {
  timeout_after = default_timeout;
  buffer = [];
  polls = polls;
  writes = writes;
  written = [];
})

unfoldable pub set_timeout : ℕ → TelnetInterface → TelnetInterface
set_timeout timeout t = record t { timeout_after = timeout }

-- What every command begins with.
abbrev pub command : ℕ → Bytes → Act (Unit {0})
command timeout_at text = do wait_prompt timeout_at; write_command text timeout_at

unfoldable pub rtt_setup : ℕ → ℕ → ℕ → Bytes → Act (Unit {0})
rtt_setup now block_search_from block_search_bytes block_id t =
    command (now + t.timeout_after)
      (codes "rtt setup "
        ++ format_uint block_search_from
        ++ codes " "
        ++ format_uint block_search_bytes
        ++ codes " \""
        ++ block_id
        ++ codes "\"")
      t

-- `Option::and_then`
abbrev and_then {ℓ κ} : {A : Type ℓ} {B : Type κ} → Option A → (A → Option B) → Option B
and_then none f = none
and_then (some a) f = f a

-- The address behind the last ` 0x` of the line.
unfoldable pub block_address : Bytes → Option ℕ
block_address line =
    let open_line = and_then (from_utf8 line) (strip_suffix (codes "\r\n")) in
    let digits = and_then open_line (λ l. last_piece (split (codes " 0x") l)) in
    and_then digits (from_str_radix max_u32 16)

abbrev pub or_unexpected {ℓ} : {A : Type ℓ} → Bytes → Option A → Act A
or_unexpected line none = fail (unexpected_response line)
or_unexpected line (some a) = pure a

unfoldable pub rtt_start_by : ℕ → Act ℕ
unfolding block_address
rtt_start_by timeout_at = do
  command timeout_at (codes "rtt start")
  _ ← wait_line_with timeout_at (starts_with (codes "rtt: Searching for control block"))
  line ← wait_line_with timeout_at (starts_with (codes "rtt: Control block found at "))
  or_unexpected line (block_address line)

unfoldable pub rtt_start : ℕ → Act ℕ
unfolding rtt_start_by
rtt_start now t = rtt_start_by (now + t.timeout_after) t

unfoldable pub rtt_stop : ℕ → Act (Unit {0})
rtt_stop now t = command (now + t.timeout_after) (codes "rtt stop") t

-- The loop over the lines up to an empty one. The fuel bounds the lines.
unfoldable pub channel_lines : ℕ → ℕ → Act (List Bytes)
channel_lines zero timeout_at t = (t, err exhausted)
channel_lines (suc fuel) timeout_at t =
    let (t', r) = read_line timeout_at t in
    elim r [
      | err e ↦ (t', err e)
      | panic ↦ (t', panic)
      | ok line ↦ elim (same line (codes "\r\n")) [
        | true ↦ (t', ok [])
        | false ↦ elim (from_utf8 line) [
          | none ↦ (t', err (raised (unexpected_response line)))
          | some l ↦
              let (t'', rest) = channel_lines fuel timeout_at t' in
              elim rest [
                | ok lines ↦ (t'', ok (l ∷ lines))
                | err e ↦ (t'', err e)
                | panic ↦ (t'', panic)
              ]
        ]
      ]
    ]

unfoldable pub rtt_channels_by : ℕ → Act (List RttChannel)
unfolding channel_lines
rtt_channels_by timeout_at = do
  command timeout_at (codes "rtt channels")
  lines ← λ t. channel_lines (budget t) timeout_at t
  pure (parse_rtt_channels lines)

unfoldable pub rtt_channels : ℕ → Act (List RttChannel)
unfolding rtt_channels_by
rtt_channels now t = rtt_channels_by (now + t.timeout_after) t

unfoldable pub rtt_server_start_by : ℕ → ℕ → ℕ → Act (Unit {0})
rtt_server_start_by timeout_at tcp_port rtt_channel = do
  command timeout_at
      (codes "rtt server start " ++ format_uint tcp_port ++ codes " " ++ format_uint rtt_channel)
  _ ← wait_line_with timeout_at (starts_with (codes "Listening on port"))
  pure tt

unfoldable pub rtt_server_start : ℕ → ℕ → ℕ → Act (Unit {0})
unfolding rtt_server_start_by
rtt_server_start now tcp_port rtt_channel t =
    rtt_server_start_by (now + t.timeout_after) tcp_port rtt_channel t

unfoldable pub rtt_server_stop : ℕ → ℕ → Act (Unit {0})
rtt_server_stop now tcp_port t =
    command (now + t.timeout_after) (codes "rtt server stop " ++ format_uint tcp_port) t

-- The number behind the last `: ` of the line, up to a blank.
unfoldable pub line_speed : Bytes → Option ℕ
line_speed line =
    let open_line = and_then (from_utf8 line) (strip_suffix (codes "\r\n")) in
    let behind = and_then open_line (λ l. last_piece (split (codes ": ") l)) in
    let digits = and_then behind (λ l. first_piece (split (codes " ") l)) in
    and_then digits (from_str_radix max_usize 10)

-- The loop that skips lines of another kind. The fuel bounds the lines.
unfoldable pub speed_loop : ℕ → ℕ → Act ℕ
unfolding line_speed
speed_loop zero timeout_at t = (t, err exhausted)
speed_loop (suc fuel) timeout_at t =
    let (t', r) = expect_line_with timeout_at (starts_with (codes "adapter speed: ")) t in
    elim r [
      | ok line ↦ or_unexpected line (line_speed line) t'
      | err (raised (unexpected_response line)) ↦ speed_loop fuel timeout_at t'
      | err e ↦ (t', err e)
      | panic ↦ (t', panic)
    ]

-- What `set_adapter_speed` and `get_adapter_speed` do with their command.
unfoldable pub adapter_speed_by : ℕ → Bytes → Act ℕ
unfolding speed_loop
adapter_speed_by timeout_at text = do
  command timeout_at text
  actual_speed ← λ t. speed_loop (budget t) timeout_at t
  _ ← wait_line_with timeout_at (λ line. same line (codes "\r\n"))
  pure actual_speed

unfoldable pub set_adapter_speed : ℕ → ℕ → Act ℕ
unfolding adapter_speed_by
set_adapter_speed now speed t =
    adapter_speed_by (now + t.timeout_after) (codes "adapter speed " ++ format_uint speed) t

unfoldable pub get_adapter_speed : ℕ → Act ℕ
unfolding adapter_speed_by
get_adapter_speed now t = adapter_speed_by (now + t.timeout_after) (codes "adapter speed") t

unfoldable pub set_rtt_polling_interval : ℕ → ℕ → Act (Unit {0})
set_rtt_polling_interval now milliseconds t =
    command (now + t.timeout_after) (codes "rtt polling_interval " ++ format_uint milliseconds) t

-- Whether a line says that the target has halted; a line that is not UTF-8 does not.
unfoldable pub says_halted : Bytes → Bool
says_halted line = elim (from_utf8 line) [
  | none ↦ false
  | some l ↦ contains (codes "halted due to debug-request") l
]

unfoldable pub halt_by : ℕ → Act (Unit {0})
unfolding says_halted
halt_by timeout_at = do
  command timeout_at (codes "halt")
  _ ← wait_line_with timeout_at says_halted
  pure tt

unfoldable pub halt : ℕ → Act (Unit {0})
unfolding halt_by
halt now t = halt_by (now + t.timeout_after) t

unfoldable pub resume : ℕ → Act (Unit {0})
resume now t = command (now + t.timeout_after) (codes "resume") t
