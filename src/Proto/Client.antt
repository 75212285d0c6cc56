-- ===== src/Proto/Client.antt =====
-- The commands that a client sends: src/slim/proto/InboundCommand.hpp and src/slim/proto/client.
pub mod Inbound
pub mod Commands
