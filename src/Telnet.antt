-- ===== src/Telnet.antt =====
-- The Telnet client of src/openocd/telnet_interface.rs: reading lines, the commands to OpenOCD, and
-- the list of RTT channels.
pub mod Lines
pub mod Reading
pub mod Budget
pub mod Channels
pub mod Commands
pub mod Answers
mod Tests
