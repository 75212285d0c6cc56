-- ===== src/Proto/Client/Inbound.antt =====
-- src/slim/proto/InboundCommand.hpp: a message is read out of the ring of received bytes.
pub mod Laws
use slimstream.Base.{
  ℕ, zero, suc, ◌+◌, ◌-◌, ◌<◌, ◌≤◌, Bool, true, false, not, List, [], ◌∷◌, Option, none, some, take,
  drop, leb, ltb, if◌then◌else◌,
}
use slimstream.Exception.{
  Outcome, done, ◌>>=◌, ◌>>◌, throw_if, too_small_for_fixed_part, too_small, too_big, missing_label,
}
use slimstream.Util.Ring.{Ring, at, get_size, get_capacity}
use slimstream.Proto.Wire.{Bytes, load32, htonl, same_bytes}

-- `ring[i]`, and 0 out of range
unfoldable pub byte_at : Ring ℕ → ℕ → ℕ
byte_at r i = elim (at r i) [ none ↦ 0 | some b ↦ b ]

-- the loop that copies `n` bytes from index `i` on
unfoldable pub read : Ring ℕ → ℕ → ℕ → Bytes
read r i zero = []
read r i (suc n) = byte_at r i ∷ read r (i + 1) n

-- the length that the message announces, after its label of 4 bytes
unfoldable pub announced : Ring ℕ → ℕ
announced r = htonl (load32 (read r 4 4) 0)

unfoldable pub is_enough_data : Ring ℕ → Bool
is_enough_data r = if leb 8 (get_size r) then leb (8 + announced r) (get_size r) else false

-- the greater of the fixed part and the whole message: what the two loops copy
abbrev pub copied_size : ℕ → ℕ → ℕ
copied_size fixed message = if ltb message fixed then fixed else message

-- The constructor, for a structure of `fixed` bytes. The value is the bytes of the message, still in
-- the order of the network: `size` is read by `message_size`, the other fields by `convert`.
unfoldable pub make : ℕ → Bytes → Ring ℕ → Outcome Bytes
make fixed label r = do
  throw_if (ltb (get_size r) fixed) too_small_for_fixed_part
  throw_if (not (is_enough_data r)) too_small
  throw_if (ltb (get_capacity r) (announced r + 8)) too_big
  let bytes = read r 0 (copied_size fixed (announced r + 8))
  throw_if (not (same_bytes label (take 4 bytes))) missing_label
  done bytes

-- `getSize()`
unfoldable pub message_size : Bytes → ℕ
message_size bytes = htonl (load32 bytes 4) + 8
