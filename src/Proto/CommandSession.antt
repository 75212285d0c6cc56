-- ===== src/Proto/CommandSession.antt =====
-- src/slim/proto/CommandSession.hpp: the control session of one SlimProto client.
pub mod State
pub mod Probes
pub mod Machine
pub mod Diagram
pub mod Invariant
pub mod Lifecycle
pub mod Handlers
pub mod Request
