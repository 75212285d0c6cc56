-- ===== src/Tests.antt =====
-- Runs of the models at concrete inputs.
mod Ring
mod Session
mod Streaming
mod Wires
mod Http
mod Capture
mod File
mod Tcp
mod System
mod Flac
mod Serving
mod Program
