-- ===== src/Gdb.antt =====
-- The GDB remote protocol client, src/gdbremote.rs.
pub mod Packet
pub mod PacketLaws
pub mod Remote
pub mod Eating
pub mod ReadLoop
pub mod Stamps
pub mod Stream
pub mod Kept
pub mod Limits
mod Tests
