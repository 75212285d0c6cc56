-- ===== src/Alsa/Source/Extract.antt =====
-- What `copyData` copies, and what a period of data comes to.
use slimstream.Base.{
  ℕ, zero, suc, ◌+◌, ◌-◌, ◌*◌, ◌≡◌, refl, ap, ◌∙◌, sym, if_cases, Bool, true, false, List, [], ◌∷◌,
  ◌++◌, length, drop, drop-drop, arith, ◌==◌, ◌&&◌, append_assoc, length-append,
}
use slimstream.Alsa.Parameters.{
  Parameters, get_logical_channels, bytes_per_sample, bytes_per_frame, bytes_per_payload,
}
use slimstream.Alsa.Source.{
  beginning_of_stream, end_of_stream, data_marker, payload, copy_data, read_bytes, Copied,
  copied_frame,
}
use slimstream.Alsa.Source.Marks.{
  in_stream, is_data, data_frames, skip_frame, take_frame, Mark-started, Mark-ended, Mark-other,
  marks,
}

length-read_bytes : (src : List ℕ) (i n : ℕ) → length (read_bytes src i n) ≡ n
unfolding read_bytes
length-read_bytes src i zero = refl
length-read_bytes src i (suc n) = ap suc (length-read_bytes src (i + 1) n)

module _ (p : Parameters) (src : List ℕ) where
  -- the width of a frame in a chunk
  abbrev pub width : ℕ
  width = get_logical_channels p * bytes_per_sample p

  -- the bytes of some frames, but those of the last channel
  abbrev pub payloads : List ℕ → List ℕ
  payloads [] = []
  payloads (i ∷ is) = payload p src i ++ payloads is

  width_is : bytes_per_payload p ≡ width
  width_is = product p.channels (bytes_per_sample p)
    where
      product : (c b : ℕ) → c * b - b ≡ (c - 1) * b
      product zero b = omega arith
      product (suc c) b =
          let cancel : suc c * b - b ≡ c * b =
            (let m : suc c * b ≡ b + c * b = omega arith in omega (arith, m)) in
          let k : c ≡ suc c - 1 = omega arith in cancel ∙ ap (λ j. j * b) k

  pub length-payloads : (is : List ℕ) → length (payloads is) ≡ length is * width
  length-payloads [] = omega arith
  length-payloads (i ∷ is) =
      let a = length-append (payload p src i) (payloads is) in
      let b = length-read_bytes src (i * bytes_per_frame p) (bytes_per_payload p) in
      let c = length-payloads is in
      let w = width_is in
      let m : suc (length is) * width ≡ width + length is * width = omega arith in
      a ∙ (omega (arith, b, c, w, m))

  module _ (producing : Bool) where
    -- the data of the stream in so many frames from `i` on, in front of what the destination held
    abbrev pub CopiedFrom : ℕ → ℕ → List ℕ → Copied → Type 0
    CopiedFrom i n dst (bytes, copied, now) =
        (bytes
          ≡ payloads (data_frames (marks p src) producing i n)
            ++ drop (length (data_frames (marks p src) producing i n) * width) dst)
        × (copied ≡ length (data_frames (marks p src) producing i n))
        × (now ≡ in_stream (marks p src) producing (i + n))

    copied_later :
        (i n : ℕ) (dst : List ℕ) (r : Copied)
        → is_data (marks p src) producing i ≡ false
        → CopiedFrom (i + 1) n dst r
        → CopiedFrom i (suc n) dst r
    copied_later i n dst (bytes, copied, now) h (b, k, s) =
        let e = sym (skip_frame (marks p src) producing i n h) in
        let m : i + 1 + n ≡ i + suc n = omega arith in
        (
          b ∙ ap (λ is. payloads is ++ drop (length is * width) dst) e,
          k ∙ ap length e,
          s ∙ ap (λ j. in_stream (marks p src) producing j) m,
        )

    copied_now :
        (i n : ℕ) (dst : List ℕ) (r : Copied)
        → is_data (marks p src) producing i ≡ true
        → CopiedFrom (i + 1) n (drop width dst) r
        → CopiedFrom i (suc n) dst (copied_frame (payload p src i) r)
    copied_now i n dst (bytes, copied, now) h (b, k, s) =
        let rest = data_frames (marks p src) producing (i + 1) n in
        let e = sym (take_frame (marks p src) producing i n h) in
        let m : i + 1 + n ≡ i + suc n = omega arith in
        let w : width + length rest * width ≡ suc (length rest) * width = omega arith in
        (
          ap (λ xs. payload p src i ++ xs) b
              ∙ sym (append_assoc (payload p src i) (payloads rest) _)
              ∙ ap (λ xs. payloads (i ∷ rest) ++ xs)
                  (sym (drop-drop width (length rest * width) dst) ∙ ap (λ j. drop j dst) w)
              ∙ ap (λ is. payloads is ++ drop (length is * width) dst) e,
          ap suc k ∙ ap length e,
          s ∙ ap (λ j. in_stream (marks p src) producing j) m,
        )

    pub copy_data-CopiedFrom :
        (n i : ℕ) (dst : List ℕ) (now : Bool)
        → now ≡ in_stream (marks p src) producing i
        → CopiedFrom i n dst (copy_data p src n i dst now)
    unfolding copy_data data_frames
    copy_data-CopiedFrom zero i dst now e =
        let m : i ≡ i + 0 = omega arith in
        let z : 0 ≡ 0 * width = omega arith in
        (ap (λ j. drop j dst) z, refl, e ∙ ap (λ k. in_stream (marks p src) producing k) m)
    copy_data-CopiedFrom (suc n) i dst now e =
        if_cases {A = Copied} (CopiedFrom i (suc n) dst) (marks p src i == beginning_of_stream)
          (λ b.
            let (skipped, next) = Mark-started (marks p src) producing i b in
            copied_later i n dst _ skipped (copy_data-CopiedFrom n (i + 1) dst true next))
          (λ nb.
            if_cases {A = Copied} (CopiedFrom i (suc n) dst) (marks p src i == end_of_stream)
              (λ b.
                let (skipped, next) = Mark-ended (marks p src) producing i nb b in
                copied_later i n dst _ skipped (copy_data-CopiedFrom n (i + 1) dst false next))
              (λ ne.
                if_cases {A = Copied} (CopiedFrom i (suc n) dst)
                  (marks p src i == data_marker && now)
                  (λ d.
                    let (taken, next) = Mark-other (marks p src) producing i true now nb ne e d in
                    copied_now i n dst _ taken
                      (copy_data-CopiedFrom n (i + 1) (drop width dst) now next))
                  (λ nd.
                    let (skipped, next) =
                      Mark-other (marks p src) producing i false now nb ne e nd in
                    copied_later i n dst _ skipped (copy_data-CopiedFrom n (i + 1) dst now next))))
