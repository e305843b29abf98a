-- ===== src/Rtt.antt =====
-- The RTT sampler, src/sampler/rttsampler.rs.
pub mod Packet
mod Tests
mod Handle
pub mod Fields
pub mod Names
pub mod Offered
pub mod RoundTrip
pub mod Sampler
pub mod Setup
pub mod Startup
pub mod Whole
mod Running
mod Stopping
pub mod Framing
pub mod Lifecycle
