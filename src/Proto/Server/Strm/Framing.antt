-- ===== src/Proto/Server/Strm/Framing.antt =====
-- The frame of an STRM command: the size it announces, and the text that it carries.
use mathlib.Core.Path.{subst}
use slimstream.Base.{
  ℕ, zero, suc, ◌+◌, ◌^◌, ◌<◌, ◌≤◌, ◌≡◌, refl, ap, [], ◌*◌, ◌∷◌, ◌++◌, some, arith, length,
  length-take, length-append, length-replicate, take, drop, ltb, if_some, ltb→lt,
}
use slimstream.Proto.Wire.{Bytes, store16, store32, htons, store16-htons}
use slimstream.Proto.Server.Strm.{
  CommandSelection, FormatSelection, pcm, flac, Strm, make, make_start, request_line, strlen,
  get_size, get_bytes, memory, http_header_size, get_data_size, finish, with_format, data_size,
}

-- the first two bytes, most significant first, are the number of the bytes after them
abbrev pub IsFramed : Bytes → Type 0
IsFramed (hi ∷ lo ∷ bytes) = hi * 256 + lo ≡ length bytes
IsFramed _ = ⊥

strlen-bound : (cs : Bytes) → strlen cs ≤ length cs
unfolding strlen
strlen-bound [] = omega arith
strlen-bound (zero ∷ cs) = omega arith
strlen-bound (suc c ∷ cs) = omega (arith, strlen-bound cs)

get_data_size-bound :
    (s : Strm) → length s.http_header ≤ http_header_size → get_data_size s ≤ data_size
unfolding get_data_size
get_data_size-bound s h = ground (arith, strlen-bound s.http_header)

-- the bytes behind the size
after_size : Strm → Bytes
after_size s = drop 2 (memory s)

length-memory :
    (s : Strm)
    → length s.opcode ≡ 4
    → length s.http_header ≤ http_header_size
    → length (memory s) ≡ 2 + data_size
unfolding memory store16 store32
length-memory s o h = grind (arith, length-append, length-replicate)

take-two : (n x y : ℕ) (bytes : Bytes) → take (2 + n) (x ∷ y ∷ bytes) ≡ x ∷ y ∷ take n bytes
take-two n x y bytes =
    let e : 2 + n ≡ suc (suc n) = omega arith in ap (λ m. take m (x ∷ y ∷ bytes)) e

IsFramed-take :
    (d : ℕ) (bytes : Bytes)
    → d < 2 ^ 16
    → d ≤ length bytes
    → IsFramed (take (2 + d) (store16 (htons d) ++ bytes))
IsFramed-take d bytes h l = rw (store16-htons d, take-two d) (omega (arith, length-take d bytes))

complete-IsFramed :
    (s : Strm)
    → length s.opcode ≡ 4
    → length s.http_header ≤ http_header_size
    → s.size ≡ htons (get_data_size s)
    → IsFramed (get_bytes s)
unfolding get_bytes get_size memory
complete-IsFramed s o h e = rw e (
    IsFramed-take (get_data_size s) _ (omega (arith, get_data_size-bound s h))
      (omega (arith, length-memory s o h, get_data_size-bound s h)))

-- For each selection, the bytes sent begin with the number of the bytes that follow, in network order.
pub make-IsFramed : (c : CommandSelection) → IsFramed (get_bytes (make c))
unfolding make finish with_format
make-IsFramed c = complete-IsFramed (make c) refl (omega arith) refl

-- For each format, port, sampling rate and client's ID for which a command that starts a stream can be
-- built, the bytes sent begin with the number of the bytes that follow, in network order.
pub make_start-IsFramed :
    (f : FormatSelection) (port rate : ℕ) (id : Bytes) (s : Strm)
    → make_start f port rate id ≡ some s
    → IsFramed (get_bytes s)
unfolding make_start finish with_format
make_start-IsFramed pcm port rate id s h =
    let (room, made) = if_some (ltb (length (request_line ++ id)) http_header_size) h in
    subst (λ s. IsFramed (get_bytes s)) made
      (complete-IsFramed _ refl (omega (arith, ltb→lt _ _ room)) refl)
make_start-IsFramed flac port rate id s h =
    let (room, made) = if_some (ltb (length (request_line ++ id)) http_header_size) h in
    subst (λ s. IsFramed (get_bytes s)) made
      (complete-IsFramed _ refl (omega (arith, ltb→lt _ _ room)) refl)
