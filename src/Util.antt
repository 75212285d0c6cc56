-- ===== src/Util.antt =====
-- The utilities under src/slim/util.
pub mod BufferPool
pub mod Ring
pub mod StateMachine
pub mod Time
