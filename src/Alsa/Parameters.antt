-- ===== src/Alsa/Parameters.antt =====
-- src/slim/alsa/Parameters.hpp: how a device is captured. The width of a sample, which ALSA gives for the
-- format, is a field.
use slimstream.Base.{ℕ, ◌-◌, ◌*◌, ◌/◌, List}

pub record Parameters : Type 0 where
  pub device_name : List ℕ
  pub channels : ℕ
  pub bits_per_sample : ℕ
  pub sampling_rate : ℕ
  pub queue_size : ℕ
  pub frames_per_chunk : ℕ
  pub periods : ℕ

abbrev pub get_total_channels : Parameters → ℕ
get_total_channels p = p.channels

-- the last channel carries the markers; there is one at least
abbrev pub get_logical_channels : Parameters → ℕ
get_logical_channels p = p.channels - 1

abbrev pub get_frames_per_chunk : Parameters → ℕ
get_frames_per_chunk p = p.frames_per_chunk

-- `getBitsPerSample() >> 3`
abbrev pub bytes_per_sample : Parameters → ℕ
bytes_per_sample p = p.bits_per_sample / 8

abbrev pub bytes_per_frame : Parameters → ℕ
bytes_per_frame p = get_total_channels p * bytes_per_sample p

-- the bytes of a frame but those of the last channel
abbrev pub bytes_per_payload : Parameters → ℕ
bytes_per_payload p = bytes_per_frame p - bytes_per_sample p
