-- ===== src/Proto.antt =====
-- The SlimProto protocol, under src/slim/proto.
pub mod Wire
pub mod Server
pub mod Client
pub mod CommandSession
pub mod StreamingSession
pub mod Streamer
pub mod System
