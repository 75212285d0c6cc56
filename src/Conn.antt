-- ===== src/Conn.antt =====
-- The connections of the program, under src/slim/conn.
pub mod Tcp
pub mod Udp
pub mod Serving
