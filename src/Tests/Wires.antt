-- ===== src/Tests/Wires.antt =====
-- Commands that are sent.
use slimstream.Base.{drop, ◌*◌, ◌/◌, ◌<◌, ◌≤◌, ◌≡◌, refl, Option, none, some, [], ◌∷◌}
use slimstream.Proto.Wire.{htons}
use slimstream.Proto.Server.Strm.{CommandSelection, flac, Strm, make, make_start, get_bytes, strlen}
use slimstream.Proto.Streamer.Sessions.{parse_client_id}
use slimstream.Proto.Streamer.Sessions.ClientId.{parse_client_id-make_start}
use slimstream.Proto.Server.Fixed.{make_audg}
use slimstream.Proto.Server.Fixed.Gain.{make_audg-gain}

abbrev strm_of : Option Strm → Strm
strm_of (some s) = s
strm_of none = make CommandSelection.stop

abbrev start_command : Strm
start_command = strm_of (make_start flac 9000 44100 (b'1' ∷ []))

start_command_lem : make_start flac 9000 44100 (b'1' ∷ []) ≡ some start_command
unfolding make_start
start_command_lem = refl

parse_client_id-make_start_example :
    parse_client_id (drop 30 (get_bytes start_command)) ≡ some (b'1' ∷ [])
unfolding strlen
parse_client_id-make_start_example =
    parse_client_id-make_start flac 9000 44100 (b'1' ∷ []) start_command start_command_lem refl

make_audg-gain_example :
    (50 < 100
      → (htons (make_audg (some 50)).gain_left2 ≡ 65536 * 50 / 100)
        × (htons (make_audg (some 50)).gain_right2 ≡ 65536 * 50 / 100))
    × (100 ≤ 50
        → ((make_audg (some 50)).gain_left2 ≡ 0)
          × ((make_audg (some 50)).gain_left1 ≡ 0)
          × ((make_audg (some 50)).gain_right2 ≡ 0)
          × ((make_audg (some 50)).gain_right1 ≡ 0))
make_audg-gain_example = make_audg-gain 50
