-- ===== src/Proto/Streamer.antt =====
-- src/slim/proto/Streamer.hpp: the consumer that streams chunks to all SlimProto sessions at a time.
pub mod State
pub mod Maps
pub mod Deliver
pub mod Machine
pub mod Diagram
pub mod Chunks
pub mod Counting
pub mod Sessions
pub mod Invariant
pub mod Kept
pub mod Keys
pub mod Sound
pub mod Streams
pub mod Steps
pub mod Loss
