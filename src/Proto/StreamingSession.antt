-- ===== src/Proto/StreamingSession.antt =====
-- src/slim/proto/StreamingSession.hpp: an HTTP session, which sends an encoded stream to one client.
pub mod State
pub mod Transfer
pub mod Lifecycle
pub mod Queue
pub mod Stopped
pub mod Invariant
pub mod Bytes
pub mod Progress
pub mod Sending
pub mod Steps
pub mod Awake
pub mod Rounds
pub mod Drain
pub mod Ends
pub mod Stopping
