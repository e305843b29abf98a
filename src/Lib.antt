-- ===== src/Lib.antt =====
-- OCDScope: an oscilloscope for the memory of an embedded target, by way of OpenOCD.
--
-- The program samples values of a running target in a thread and plots them. A sampler thread reads
-- memory over the GDB remote protocol (src/gdbremote.rs, on the timestamped TCP stream of
-- src/ttstream.rs), or scope packets from an RTT channel (src/sampler/rttsampler.rs) that it opens
-- with OpenOCD's Telnet commands (src/openocd/telnet_interface.rs). Samples go over a channel to the
-- application (src/main.rs), which keeps a buffer for each signal (src/buffer.rs), draws the signals
-- that are enabled, and exports them to files (src/export.rs). A fake sampler makes up signals
-- (src/sampler/fakesampler.rs).
--
-- Which file models which part:
--   Prelude, Text   Boolean tests, lists, outcomes (value, error or panic), and the text routines of
--                   Rust that the program calls
--   Float           `f32` and `f64`: an interface, and what IEEE 754 says of comparisons
--   Ttstream        src/ttstream.rs: `connect`, `receive`, `send`, `get_tx_timestamp`,
--                   `get_timestamp_cmsg`
--   Gdb/Packet      src/gdbremote.rs: `build_gdb_packet`, `parse_gdb_packet`
--   Gdb/Remote      src/gdbremote.rs: `GDBRemote`, its buffer, and `read_response`
--   Mem             src/sampler/memsampler.rs: the request for a word of memory, and what is made of
--                   a response (`parse_hex_value`); Mem/Session: the opening of the session and the
--                   reading of the addresses; Mem/Sampler: the loop of `sampler_thread`;
--                   Mem/Startup: its start, and the whole thread; Mem/Symbols: the symbols of an
--                   ELF file that are offered
--   Telnet/Lines    src/openocd/telnet_interface.rs: the private helpers of `TelnetInterface`
--   Telnet/Commands src/openocd/telnet_interface.rs: its commands
--   Telnet/Channels src/openocd/telnet_interface.rs: `parse_rtt_channels`
--   Rtt/Packet      src/sampler/rttsampler.rs: `parse_scope_packet_structure`, `decode_bytes`
--   Rtt/Setup       src/sampler/rttsampler.rs: the set-up by `RTTSampler::start`, and
--                   `synchronize_rtt_channel`
--   Rtt/Startup     src/sampler/rttsampler.rs: `sampler_thread` up to its loop, and the whole thread
--   Rtt/Sampler     src/sampler/rttsampler.rs: the loop of `sampler_thread`
--   Fake            src/sampler/fakesampler.rs: the loop of `sampler_thread`, and the signals offered
--   Sampler         src/sampler/mod.rs: `Status`, `Notification`, and what the loops share: how a
--                   round ends (`Next`), and a thread as a list of rounds (`run`);
--                   Sampler/Commands: the commands of the memory sampler and the fake sampler;
--                   Sampler/Channel: the channel of the commands, and the end of a thread that is
--                   stopped; Fake/Handle, Mem/Handle, Rtt/Handle: the `impl Sampler` of each
--   Buffer          src/buffer.rs: `SampleBuffer`, `index_before_at`; Buffer/Generator:
--                   `plot_points_generator`
--   App             src/main.rs: the state `OCDScope` with its dialogs; App/Messages:
--                   `handle_messages`; App/Connect: `try_connect_sampler`, the toolbar and the list
--                   of signals of `update`; App/Picked: the export of a picked file; App/Plot: the
--                   lines of the plot; App/Frame: the whole of `update`, with the controls and the
--                   dialogs; App/Starting: a sampler of any kind, from its start on;
--                   App/Delivery: frame after frame, and a thread from its start on
--   Export          src/export.rs: `write_csv`, `write_npy`
--   Utils           src/utils.rs: `human_readable_size`, `find_free_tcp_port`
-- The other files hold the laws of the part that they stand below, and the examples.
--
-- State and environment. A method that changes its object takes and returns the record of its fields.
-- What the system gives is an argument: what each system call returns (`SysResult`), and for a loop
-- the list of what each of its reads meets, with the time at which it is made (`Poll`). A loop that
-- reads ends its model with "still waiting" where the list ends. Times are natural numbers:
-- nanoseconds, or microseconds in a sample. A panic is an outcome of its own. `debug_assert!` is
-- modelled, with the kind of build as an argument, where the application connects a sampler, where a
-- sampler is stopped, in the exports, and in the callback of a plot; elsewhere (in the buffers and
-- the parsers) the model is the release build. `stop` is a command in `handle_messages` and in the
-- toolbar; its assertion stands in `update`, and its wait for the thread in Sampler/Channel.
-- Logging has no counterpart.
--
-- Fuel. The binary search takes one round more than there are samples, as each round makes its range
-- smaller. `find_line` takes the length of the buffer, and the loops over lines take one more than
-- the number of bytes to come (`budget`), as each line has at least two. The loop over the packets
-- of an RTT buffer takes one more than its bytes, as a packet has at least one.
-- `format_uint` prints twenty digits, as many as 64 bits have.
--
-- A sampler thread is a state and a function for each round of its loop. A round takes what the
-- channels and streams give it, and returns what it sends and how it ends: the thread goes on, ends,
-- fails (and then reports), panics, still waits, or is blocked. It is blocked where it sends a sample
-- and the channel, which is bounded (`sync_channel`), is full: a round is given how many places there
-- are; and as nobody reads the channel while `stop` waits for the thread, a blocked thread then stays
-- so. A loop that runs out of fuel is one that is still running, a round that waits. The application
-- takes what a frame brings (the messages of the two channels, what is clicked) and returns its
-- state and the commands that it sends to the sampler; a `HashMap` is a list of keys and values, in
-- the order of their arrival.
--
-- Not modelled: the layout of the window and the plot (egui), colours, the dialogs for files, sleeping
-- until a sample is due, the parsing of ELF files, and errors of the
-- file system.
pub mod App
pub mod Buffer
pub mod Export
pub mod Fake
pub mod Float
pub mod Gdb
pub mod Mem
pub mod Prelude
pub mod Rtt
pub mod Sampler
pub mod Telnet
pub mod Text
pub mod Ttstream
pub mod Utils
