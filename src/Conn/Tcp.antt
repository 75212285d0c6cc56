-- ===== src/Conn/Tcp.antt =====
-- src/slim/conn/tcp: the TCP server, its connections and their callbacks.
pub mod State
pub mod Server
pub mod Phase
pub mod Steps
pub mod Vector
pub mod Life
pub mod Limit
pub mod Deaf
