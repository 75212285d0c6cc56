-- ===== src/Proto/Server/Strm.antt =====
-- src/slim/proto/server/CommandSTRM.hpp, with the selections of OutboundCommand.hpp.
pub mod Framing
pub mod Text
use slimstream.Base.{
  ℕ, zero, suc, ◌+◌, ◌-◌, ◌%◌, ◌^◌, ◌<◌, ◌≤◌, ◌≡◌, refl, Bool, true, false, List, [], ◌∷◌, ◌++◌,
  Option, none, some, arith, length, take, replicate, ltb, leb, ◌==◌, if◌then◌else◌,
}
use slimstream.Base.Int.{to_u32}
use slimstream.Util.Time.{Timestamp, get_milliseconds}
use slimstream.Proto.Wire.{Bytes, store16, store32, htons, htonl}

pub data CommandSelection : Type 0 where
  start stop time pause unpause : CommandSelection

pub data FormatSelection : Type 0 where
  pcm flac : FormatSelection

-- `static_cast<char>`
abbrev pub selection_code : CommandSelection → ℕ
selection_code start = b's'
selection_code stop = b'q'
selection_code time = b't'
selection_code pause = b'p'
selection_code unpause = b'u'

-- `STRMData` and `STRM`; `http_header` is the text that the 64 bytes hold, less its padding.
pub record Strm : Type 0 where
  pub size : ℕ
  pub opcode : Bytes
  pub command : ℕ
  pub autostart : ℕ
  pub format : ℕ
  pub sample_size : ℕ
  pub sampling_rate : ℕ
  pub channels : ℕ
  pub endianness : ℕ
  pub threshold : ℕ
  pub spdif_enable : ℕ
  pub transition_period : ℕ
  pub transition_type : ℕ
  pub flags : ℕ
  pub output_threshold : ℕ
  pub slaves : ℕ
  pub replay_gain : ℕ
  pub server_port : ℕ
  pub server_ip : ℕ
  pub http_header : Bytes

abbrev pub http_header_size : ℕ
http_header_size = 64

-- `sizeof(strm.data)`
abbrev pub data_size : ℕ
data_size = 92

abbrev pub map_sampling_rate : ℕ → ℕ
map_sampling_rate rate =
    if rate == 8000
    then b'5'
    else if rate == 11025
    then b'0'
    else if rate == 12000
    then b'6'
    else if rate == 16000
    then b'7'
    else if rate == 22500
    then b'1'
    else if rate == 24000
    then b'8'
    else if rate == 32000
    then b'2'
    else if rate == 44100
    then b'3'
    else if rate == 48000
    then b'4'
    else if rate == 96000
    then b'9'
    else b'?'

-- `memset` and the opcode
abbrev blank : Strm
blank = record {
  size = 0;
  opcode = b's' ∷ b't' ∷ b'r' ∷ b'm' ∷ [];
  command = 0;
  autostart = 0;
  format = 0;
  sample_size = 0;
  sampling_rate = 0;
  channels = 0;
  endianness = 0;
  threshold = 0;
  spdif_enable = 0;
  transition_period = 0;
  transition_type = 0;
  flags = 0;
  output_threshold = 0;
  slaves = 0;
  replay_gain = 0;
  server_port = 0;
  server_ip = 0;
  http_header = [];
}

with_format : FormatSelection → ℕ → Strm → Strm
with_format pcm rate s = record s {
  format = b'p';
  sample_size = b'3';
  sampling_rate = map_sampling_rate rate;
  channels = b'2';
  endianness = b'1';
}
with_format flac rate s = record s {
  format = b'f';
  sample_size = b'?';
  sampling_rate = b'?';
  channels = b'?';
  endianness = b'?';
}

-- "GET /stream?player="
abbrev pub request_line : Bytes
request_line =
    b'G' ∷ b'E' ∷ b'T' ∷ b' ' ∷ b'/' ∷ b's' ∷ b't' ∷ b'r' ∷ b'e' ∷ b'a' ∷ b'm' ∷ b'?' ∷ b'p' ∷ b'l'
    ∷ b'a' ∷ b'y' ∷ b'e' ∷ b'r' ∷ b'=' ∷ []

-- `strlen` stops at the first zero
unfoldable pub strlen : Bytes → ℕ
strlen [] = 0
strlen (zero ∷ cs) = 0
strlen (suc c ∷ cs) = suc (strlen cs)

unfoldable pub get_data_size : Strm → ℕ
unfolding strlen
get_data_size s =
    if s.command == b's'
    then data_size - (http_header_size - strlen s.http_header)
    else data_size - http_header_size

-- `getSize()`
unfoldable pub get_size : Strm → ℕ
unfolding get_data_size
get_size s = 2 + get_data_size s

finish : Strm → Strm
unfolding get_data_size htons
finish s = record s { size = htons (get_data_size s) }

-- The constructor. `strcpy` of a text that does not fit with its terminator in the 64 bytes writes
-- past the structure: then there is no value.
unfoldable pub make_start : FormatSelection → ℕ → ℕ → Bytes → Option Strm
unfolding with_format finish
make_start format port rate client_id =
    let s =
      with_format format rate
        (record blank { command = b's'; autostart = b'0'; threshold = 200 }) in
    if ltb (length (request_line ++ client_id)) http_header_size
    then some (
        finish (record s {
          server_port = htons (port % 2 ^ 16);
          http_header = request_line ++ client_id;
        }))
    else none

-- The constructor for the other selections (`Start` has an empty client there, and is not sent so).
unfoldable pub make : CommandSelection → Strm
unfolding with_format finish
make selection = finish (
    with_format flac 0
      (record blank { command = selection_code selection; autostart = b'0'; threshold = 200 }))

-- The constructor with a start time, whose milliseconds the cast reduces to 32 bits.
unfoldable pub make_at : CommandSelection → Timestamp → Strm
unfolding make htonl get_milliseconds
make_at selection start_at = record (make selection) {
  replay_gain = htonl (to_u32 (get_milliseconds start_at));
}

-- the structure in memory
unfoldable pub memory : Strm → Bytes
unfolding store16 store32
memory s =
    store16 s.size
    ++ s.opcode
    ++ (s.command ∷ s.autostart ∷ s.format ∷ s.sample_size ∷ s.sampling_rate ∷ s.channels
        ∷ s.endianness ∷ s.threshold ∷ s.spdif_enable ∷ s.transition_period ∷ s.transition_type
        ∷ s.flags ∷ s.output_threshold ∷ s.slaves ∷ [])
    ++ store32 s.replay_gain
    ++ store16 s.server_port
    ++ store32 s.server_ip
    ++ s.http_header
    ++ replicate (http_header_size - length s.http_header) 0

unfoldable pub get_bytes : Strm → Bytes
unfolding get_size memory
get_bytes s = take (get_size s) (memory s)

pub command-make : (c : CommandSelection) → (make c).command ≡ selection_code c
unfolding make
command-make c = refl
