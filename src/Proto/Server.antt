-- ===== src/Proto/Server.antt =====
-- The commands that the server sends, src/slim/proto/server and src/slim/proto/OutboundCommand.hpp.
-- A command is the packed structure that its class fills in; `get_bytes` is what
-- `write(getBuffer(), getSize())` puts on the wire.
pub mod Strm
pub mod Fixed
