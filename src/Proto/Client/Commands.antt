-- ===== src/Proto/Client/Commands.antt =====
-- src/slim/proto/client: the five commands of a client. Their structures are packed, so each field
-- has an offset in the message; `convert` swaps the fields of more than one byte.
use slimstream.Base.{ℕ, [], ◌∷◌, take, drop, get_or}
use slimstream.Exception.{Outcome}
use slimstream.Util.Ring.{Ring}
use slimstream.Proto.Wire.{Bytes, load16, load32, htons, htonl}
use slimstream.Proto.Client.Inbound.{make}

-- the labels
pub data Command : Type 0 where
  dsco helo resp setd stat : Command

abbrev pub label : Command → Bytes
label dsco = b'D' ∷ b'S' ∷ b'C' ∷ b'O' ∷ []
label helo = b'H' ∷ b'E' ∷ b'L' ∷ b'O' ∷ []
label resp = b'R' ∷ b'E' ∷ b'S' ∷ b'P' ∷ []
label setd = b'S' ∷ b'E' ∷ b'T' ∷ b'D' ∷ []
label stat = b'S' ∷ b'T' ∷ b'A' ∷ b'T' ∷ []

-- `sizeof` of the structures
abbrev pub fixed_size : Command → ℕ
fixed_size dsco = 9
fixed_size helo = 44
fixed_size resp = 8
fixed_size setd = 9
fixed_size stat = 61

-- the constructors of `CommandDSCO`, `CommandHELO`, `CommandRESP`, `CommandSETD` and `CommandSTAT`
unfoldable pub deserialize : Command → Ring ℕ → Outcome Bytes
deserialize c r = make (fixed_size c) (label c) r

-- `HELO` after `convert`
pub record Helo : Type 0 where
  pub device_id : ℕ
  pub revision : ℕ
  pub mac : Bytes
  pub uuid : Bytes
  pub wlan_channel_list : ℕ
  pub bytes_received_high : ℕ
  pub bytes_received_low : ℕ
  pub language : Bytes

unfoldable pub convert_helo : Bytes → Helo
unfolding load16 load32 htons htonl
convert_helo m = record {
  device_id = get_or m 8 0;
  revision = get_or m 9 0;
  mac = take 6 (drop 10 m);
  uuid = take 16 (drop 16 m);
  wlan_channel_list = htons (load16 m 32);
  bytes_received_high = htonl (load32 m 34);
  bytes_received_low = htonl (load32 m 38);
  language = take 2 (drop 42 m);
}

-- `STAT` after `convert`, which leaves `serverTimestamp` in the order in which it came.
pub record Stat : Type 0 where
  pub event : Bytes
  pub number_crlf : ℕ
  pub initialized_mas : ℕ
  pub mode_mas : ℕ
  pub stream_buffer_size : ℕ
  pub stream_buffer_fullness : ℕ
  pub bytes_received1 : ℕ
  pub bytes_received2 : ℕ
  pub signal_strength : ℕ
  pub jiffies : ℕ
  pub output_buffer_size : ℕ
  pub output_buffer_fullness : ℕ
  pub elapsed_seconds : ℕ
  pub voltage : ℕ
  pub elapsed_milliseconds : ℕ
  pub server_timestamp : ℕ
  pub error_code : ℕ

unfoldable pub convert_stat : Bytes → Stat
unfolding load16 load32 htons htonl
convert_stat m = record {
  event = take 4 (drop 8 m);
  number_crlf = get_or m 12 0;
  initialized_mas = get_or m 13 0;
  mode_mas = get_or m 14 0;
  stream_buffer_size = htonl (load32 m 15);
  stream_buffer_fullness = htonl (load32 m 19);
  bytes_received1 = htonl (load32 m 23);
  bytes_received2 = htonl (load32 m 27);
  signal_strength = htons (load16 m 31);
  jiffies = htonl (load32 m 33);
  output_buffer_size = htonl (load32 m 37);
  output_buffer_fullness = htonl (load32 m 41);
  elapsed_seconds = htonl (load32 m 45);
  voltage = htons (load16 m 49);
  elapsed_milliseconds = htonl (load32 m 51);
  server_timestamp = load32 m 55;
  error_code = htons (load16 m 59);
}
