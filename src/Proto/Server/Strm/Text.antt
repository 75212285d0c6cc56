-- ===== src/Proto/Server/Strm/Text.antt =====
-- The text in the bytes of an STRM command.
use mathlib.Core.Path.{subst}
use slimstream.Base.{
  ℕ, zero, suc, ◌+◌, ◌≤◌, ◌≡◌, refl, sym, ap, ◌∙◌, arith, List, [], ◌∷◌, ◌++◌, some, length, take,
  drop, ltb, ltb→lt, if_some,
}
use slimstream.Proto.Wire.{Bytes, store16, store32}
use slimstream.Proto.Server.Strm.{
  FormatSelection, pcm, flac, Strm, make_start, request_line, strlen, get_size, get_data_size,
  get_bytes, memory, http_header_size, finish, with_format,
}

take-nil : {A : Type 0} (n : ℕ) → take {A = A} n [] ≡ []
take-nil zero = refl
take-nil (suc n) = refl

drop-take : {A : Type 0} (k n : ℕ) (xs : List A) → drop k (take (k + n) xs) ≡ take n (drop k xs)
drop-take zero n xs = let e : 0 + n ≡ n = omega arith in ap (λ m. take m xs) e
drop-take (suc k) n [] =
    let e : suc k + n ≡ suc (k + n) = omega arith in
    ap (λ m. drop (suc k) (take m [])) e ∙ sym (take-nil n)
drop-take (suc k) n (x ∷ xs) =
    let e : suc k + n ≡ suc (k + n) = omega arith in
    ap (λ m. drop (suc k) (take m (x ∷ xs))) e ∙ drop-take k n xs

take-length : {A : Type 0} (n : ℕ) (xs ys : List A) → n ≡ length xs → take n (xs ++ ys) ≡ xs
take-length zero [] ys h = refl
take-length zero (x ∷ xs) ys h = absurd (omega arith)
take-length (suc n) [] ys h = absurd (omega arith)
take-length (suc n) (x ∷ xs) ys h = ap (λ zs. x ∷ zs) (take-length n xs ys (omega arith))

strlen-request_line : (id : Bytes) → strlen (request_line ++ id) ≡ 19 + strlen id
unfolding strlen
strlen-request_line id = omega arith

get_size-text :
    (s : Strm)
    → s.command ≡ b's'
    → strlen s.http_header ≡ length s.http_header
    → length s.http_header ≤ http_header_size
    → get_size s ≡ 30 + length s.http_header
unfolding get_size get_data_size
get_size-text s c l h = ground arith

-- the text in the bytes of a command
text-get_bytes :
    (s : Strm) (rest : Bytes)
    → drop 30 (memory s) ≡ s.http_header ++ rest
    → get_size s ≡ 30 + length s.http_header
    → drop 30 (get_bytes s) ≡ s.http_header
unfolding get_bytes
text-get_bytes s rest m e =
    ap (λ n. drop 30 (take n (memory s))) e
    ∙ drop-take 30 (length s.http_header) (memory s)
    ∙ ap (take (length s.http_header)) m
    ∙ take-length (length s.http_header) s.http_header rest refl

pub text-make_start :
    (f : FormatSelection) (port rate : ℕ) (id : Bytes) (s : Strm)
    → make_start f port rate id ≡ some s
    → strlen id ≡ length id
    → drop 30 (get_bytes s) ≡ request_line ++ id
unfolding make_start memory store16 store32 finish with_format
text-make_start pcm port rate id s h l =
    let (room, made) = if_some (ltb (length (request_line ++ id)) http_header_size) h in
    subst (λ s. drop 30 (get_bytes s) ≡ request_line ++ id) made
      (text-get_bytes _ _ refl (
        get_size-text _ refl (omega (arith, l, strlen-request_line id))
          (omega (arith, ltb→lt _ _ room))))
text-make_start flac port rate id s h l =
    let (room, made) = if_some (ltb (length (request_line ++ id)) http_header_size) h in
    subst (λ s. drop 30 (get_bytes s) ≡ request_line ++ id) made
      (text-get_bytes _ _ refl (
        get_size-text _ refl (omega (arith, l, strlen-request_line id))
          (omega (arith, ltb→lt _ _ room))))
