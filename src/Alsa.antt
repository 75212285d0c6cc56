-- ===== src/Alsa.antt =====
-- The capture of PCM data from an ALSA device, under src/slim/alsa.
pub mod Parameters
pub mod Source
