-- ===== src/Proto/Streamer/Sessions/ClientId.antt =====
-- The way of a client's ID: into the text of an STRM command, and back with the HTTP request.
use slimstream.Base.{ℕ, ◌≡◌, refl, ap, ◌∙◌, ◌++◌, some, length, drop}
use slimstream.Proto.Wire.{Bytes}
use slimstream.Proto.Server.Strm.{
  FormatSelection, Strm, make_start, request_line, strlen, get_bytes,
}
use slimstream.Proto.Server.Strm.Text.{text-make_start}
use slimstream.Proto.Streamer.Sessions.{parse_client_id}

parse_client_id-request_line : (id : Bytes) → parse_client_id (request_line ++ id) ≡ some id
unfolding parse_client_id
parse_client_id-request_line id = refl

-- Let a command that starts a stream be built for a client's ID with no zero byte in it. A request that
-- is the text of that command as it is sent has this client's ID.
pub parse_client_id-make_start :
    (f : FormatSelection) (port rate : ℕ) (id : Bytes) (s : Strm)
    → make_start f port rate id ≡ some s
    → strlen id ≡ length id
    → parse_client_id (drop 30 (get_bytes s)) ≡ some id
parse_client_id-make_start f port rate id s h l =
    ap parse_client_id (text-make_start f port rate id s h l) ∙ parse_client_id-request_line id
