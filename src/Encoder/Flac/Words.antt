-- ===== src/Encoder/Flac/Words.antt =====
-- The samples that libFLAC gets are those of the data, each without its lowest eight bits.
use mathlib.Core.Path.{subst, ap₂}
use native.Mathlib.Nat.{mul-div_cancel}
use slimstream.Base.{
  ℕ, ◌+◌, ◌-◌, ◌*◌, ◌/◌, ◌<◌, ◌≡◌, refl, sym, ap, ◌∙◌, arith, zero, suc, true, List, [], ◌∷◌, ◌++◌,
  length, take, drop, map, ltb, length-drop, take-append-drop, drop-drop, take-all, append_assoc,
  append-nil, if_true,
}
use slimstream.Encoder.Flac.{
  Flac, zero_every, frame_size, downscaled, last_frame, calls_for, calls, FlacApi, process_all,
  encode,
}

-- a sample in memory, the lowest byte first
pub record Sample : Type 0 where
  pub b0 : ℕ
  pub b1 : ℕ
  pub b2 : ℕ
  pub b3 : ℕ

abbrev pub bytes_of : Sample → List ℕ
bytes_of x = x.b0 ∷ x.b1 ∷ x.b2 ∷ x.b3 ∷ []

unfoldable pub memory : List Sample → List ℕ
memory [] = []
memory (x ∷ xs) = x.b0 ∷ x.b1 ∷ x.b2 ∷ x.b3 ∷ memory xs

abbrev pub value : Sample → ℕ
value x = x.b0 + 256 * x.b1 + 65536 * x.b2 + 16777216 * x.b3

-- a sample without its lowest byte
abbrev pub shifted : Sample → Sample
shifted x = record { b0 = x.b1; b1 = x.b2; b2 = x.b3; b3 = 0 }

abbrev cleared : Sample → Sample
cleared x = record x { b0 = 0 }

-- what the calls read, one after the other
unfoldable pub read_all : List (List ℕ × ℕ) → List ℕ
read_all [] = []
read_all ((m, n) ∷ cs) = m ++ read_all cs

unfoldable pub frames_of : List (List ℕ × ℕ) → ℕ
frames_of [] = 0
frames_of ((m, n) ∷ cs) = n + frames_of cs

pub value-shifted : (x : Sample) → x.b0 < 256 → value (shifted x) ≡ value x / 256
value-shifted x h = omega (arith, h)

zero_every-memory : (xs : List Sample) → zero_every 4 0 (memory xs) ≡ memory (map cleared xs)
unfolding zero_every memory
zero_every-memory [] = refl
zero_every-memory (x ∷ xs) = ap (λ m. 0 ∷ x.b1 ∷ x.b2 ∷ x.b3 ∷ m) (zero_every-memory xs)

length-memory : (xs : List Sample) → length (memory xs) ≡ 4 * length xs
unfolding memory
length-memory [] = refl
length-memory (x ∷ xs) = let i = length-memory xs in omega (arith, i)

-- The bytes behind the first one and a 0 are those of the shifted samples.
shifted-memory :
    (x : Sample) (xs : List Sample)
    → drop 1 (memory (map cleared (x ∷ xs))) ++ 0 ∷ [] ≡ memory (map shifted (x ∷ xs))
unfolding memory
shifted-memory x [] = refl
shifted-memory x (y ∷ ys) = ap (λ m. x.b1 ∷ x.b2 ∷ x.b3 ∷ 0 ∷ m) (shifted-memory y ys)

length-cleared : (xs : List Sample) → length (memory (map cleared xs)) ≡ 4 * length xs
unfolding memory
length-cleared [] = refl
length-cleared (x ∷ xs) = let i = length-cleared xs in omega (arith, i)

-- The frames but the last, and the last one, are all bytes behind the first one and a 0.
joined :
    (d : List ℕ) (k m : ℕ)
    → 0 < m
    → length d ≡ k + m
    → take k (drop 1 d) ++ last_frame m d ≡ drop 1 d ++ 0 ∷ []
joined d k m p e =
    ap (λ t. take k (drop 1 d) ++ (t ++ 0 ∷ [])) ends
    ∙ sym (append_assoc (take k (drop 1 d)) (drop k (drop 1 d)) (0 ∷ []))
    ∙ ap (λ t. t ++ 0 ∷ []) (take-append-drop k (drop 1 d))
  where
    same : drop 1 (drop (length d - m) d) ≡ drop k (drop 1 d)
    same =
        sym (drop-drop (length d - m) 1 d) ∙ ap (λ i. drop i d) (omega (arith, e)) ∙ drop-drop 1 k d

    ends : take (m - 1) (drop 1 (drop (length d - m) d)) ≡ drop k (drop 1 d)
    ends =
        ap (take (m - 1)) same
        ∙ take-all (m - 1) (drop k (drop 1 d))
            (let a = length-drop k (drop 1 d) in let b = length-drop 1 d in omega (arith, a, b, e))

-- What the calls for a number of frames read.
record Read (frames : ℕ) (d : List ℕ) (cs : List (List ℕ × ℕ)) : Type 0 where
  whole : read_all cs ≡ drop 1 d ++ 0 ∷ []
  counted : frames_of cs ≡ frames

read_calls :
    (f m : ℕ) (d : List ℕ)
    → 0 < m
    → length d ≡ (f + 1) * m
    → Read (f + 1) d (calls_for (f + 1) m m d)
unfolding read_all frames_of
read_calls zero m d p h = record {
  whole = append-nil _ ∙ joined d 0 m p (omega (arith, h));
  counted = refl;
}
read_calls (suc f) m d p h =
    let before : (suc f + 1 - 1) * m ≡ suc f * m = ap (λ i. i * m) (omega arith) in
    subst (Read (suc f + 1) d)
      (sym (
        ap₂ (λ a b. a ++ b) (if_true (ltb 1 (suc f + 1)) _ _ (ground arith))
          (if_true (ltb 0 (suc f + 1)) _ _ (ground arith))))
      (record {
        whole =
            ap (λ t. take ((suc f + 1 - 1) * m) (drop 1 d) ++ t) (append-nil _)
            ∙ joined d ((suc f + 1 - 1) * m) m p (omega (arith, h, before));
        counted = omega arith;
      })

-- What an encoder of `f + 1` frames hands to libFLAC.
pub record Handed {F : Type 0} (api : FlacApi F) (e : Flac F) (f : ℕ) (xs : List Sample)
    : Type 0 where
  pub handed : List (List ℕ × ℕ)
  pub encoded : encode api (memory xs) e ≡ (
    (process_all api handed e.stream).0,
    record e { stream = (process_all api handed e.stream).1 },
  )
  pub samples : read_all handed ≡ memory (map shifted xs)
  pub frames : frames_of handed ≡ f + 1

-- A running encoder that downscales samples of 32 bits, given the samples of a number of whole frames
-- that is not 0, makes calls of process_interleaved for exactly these frames, and what they read, one
-- after the other, is each sample in turn without its lowest eight bits.
pub encode-Handed :
    {F : Type 0} (api : FlacApi F) (e : Flac F) (f : ℕ) (x : Sample) (xs : List Sample)
    → e.running ≡ true
    → e.down_scale ≡ true
    → e.bits_per_sample ≡ 32
    → 0 < e.channels
    → length (x ∷ xs) ≡ (f + 1) * e.channels
    → Handed api e f (x ∷ xs)
unfolding encode calls
encode-Handed api e f x xs r z b p n = record {
  handed = calls e (memory (x ∷ xs));
  encoded = if_true e.running _ _ r;
  samples = ap read_all same ∙ read.whole ∙ shifted-memory x xs;
  frames = ap frames_of same ∙ read.counted;
}
  where
    wide : frame_size e ≡ 4 * e.channels
    wide = ap (λ b. b / 8 * e.channels) b

    scaled : downscaled e (memory (x ∷ xs)) ≡ memory (map cleared (x ∷ xs))
    scaled =
        if_true e.down_scale _ _ z
        ∙ ap (λ b. zero_every (b / 8) 0 (memory (x ∷ xs))) b
        ∙ zero_every-memory (x ∷ xs)

    frames : length (memory (x ∷ xs)) / frame_size e ≡ f + 1
    frames =
        let l = length-memory (x ∷ xs) in
        let total : length (memory (x ∷ xs)) ≡ (f + 1) * (4 * e.channels) = omega (arith, l, n) in
        ap (λ w. length (memory (x ∷ xs)) / w) wide
        ∙ ap (λ t. t / (4 * e.channels)) total
        ∙ mul-div_cancel (f + 1) (omega (arith, p))

    same :
        calls e (memory (x ∷ xs))
        ≡ calls_for (f + 1) (4 * e.channels) (4 * e.channels) (memory (map cleared (x ∷ xs)))
    same =
        ap (λ k. calls_for k (4 * e.channels) (frame_size e) (downscaled e (memory (x ∷ xs))))
          frames
        ∙ ap (λ w. calls_for (f + 1) (4 * e.channels) w (downscaled e (memory (x ∷ xs)))) wide
        ∙ ap (calls_for (f + 1) (4 * e.channels) (4 * e.channels)) scaled

    read :
        Read
          (f + 1)
          (memory (map cleared (x ∷ xs)))
          (calls_for (f + 1) (4 * e.channels) (4 * e.channels) (memory (map cleared (x ∷ xs))))
    read =
        let l = length-cleared (x ∷ xs) in
        read_calls f (4 * e.channels) (memory (map cleared (x ∷ xs))) (omega (arith, p))
          (omega (arith, l, n))
