-- ===== src/Alsa/Source/Marks.antt =====
-- Which frames of a period belong to a stream, said frame by frame.
use slimstream.Base.{
  ℕ, zero, suc, ◌+◌, ◌≡◌, refl, ap, ◌∙◌, sym, if_true, if_false, if_cases, Bool, true, false,
  Option, none, some, List, [], ◌∷◌, arith, ◌==◌, ◌&&◌, if◌then◌else◌,
}
use slimstream.Alsa.Parameters.{Parameters}
use slimstream.Alsa.Source.{beginning_of_stream, end_of_stream, data_marker, marker, contains_data}

-- what a marker makes of `producing`
abbrev pub after : Bool → ℕ → Bool
after producing m =
    if m == beginning_of_stream then true else (if m == end_of_stream then false else producing)

module _ (marks : ℕ → ℕ) (producing : Bool) where
  -- whether a stream is under way at a frame: what the frames before it say
  unfoldable pub in_stream : ℕ → Bool
  in_stream zero = producing
  in_stream (suc k) = after (in_stream k) (marks k)

  -- the frames with data of a stream, among so many frames from `i` on
  abbrev pub is_data : ℕ → Bool
  is_data k = marks k == data_marker && in_stream k

  unfoldable pub data_frames : ℕ → ℕ → List ℕ
  data_frames i zero = []
  data_frames i (suc n) = let rest = data_frames (i + 1) n in if is_data i then i ∷ rest else rest

  -- A frame that is not data of a stream is passed over.
  pub skip_frame : (i n : ℕ) → is_data i ≡ false → data_frames i (suc n) ≡ data_frames (i + 1) n
  unfolding data_frames
  skip_frame i n h = if_false (is_data i) _ _ h

  pub take_frame : (i n : ℕ) → is_data i ≡ true → data_frames i (suc n) ≡ i ∷ data_frames (i + 1) n
  unfolding data_frames
  take_frame i n h = if_true (is_data i) _ _ h

  next_mark : (i : ℕ) → in_stream (i + 1) ≡ after (in_stream i) (marks i)
  unfolding in_stream
  next_mark i = let e : i + 1 ≡ suc i = omega arith in ap (λ k. in_stream k) e

  -- A marker, and what it says of its frame and of the next one.
  abbrev pub Mark : ℕ → Bool → Bool → Type 0
  Mark i has_data now = (is_data i ≡ has_data) × (now ≡ in_stream (i + 1))

  pub Mark-started : (i : ℕ) → (marks i == beginning_of_stream) ≡ true → Mark i false true
  Mark-started i b =
      let m : (marks i == data_marker) ≡ false = other (marks i) b in
      (
        ap (λ x. x && in_stream i) m,
        sym (next_mark i ∙ if_true (marks i == beginning_of_stream) _ _ b),
      )
    where
      other : (m : ℕ) → (m == beginning_of_stream) ≡ true → (m == data_marker) ≡ false
      other m b = ground arith

  pub Mark-ended :
      (i : ℕ)
      → (marks i == beginning_of_stream) ≡ false
      → (marks i == end_of_stream) ≡ true
      → Mark i false false
  Mark-ended i nb b =
      let m : (marks i == data_marker) ≡ false = other (marks i) b in
      (
        ap (λ x. x && in_stream i) m,
        sym (
            next_mark i
            ∙ if_false (marks i == beginning_of_stream) _ _ nb
            ∙ if_true (marks i == end_of_stream) _ _ b),
      )
    where
      other : (m : ℕ) → (m == end_of_stream) ≡ true → (m == data_marker) ≡ false
      other m b = ground arith

  pub Mark-other :
      (i : ℕ) (has_data now : Bool)
      → (marks i == beginning_of_stream) ≡ false
      → (marks i == end_of_stream) ≡ false
      → now ≡ in_stream i
      → (marks i == data_marker && now) ≡ has_data
      → Mark i has_data now
  Mark-other i has_data now nb ne e d = (
    ap (λ x. marks i == data_marker && x) (sym e) ∙ d,
    e
        ∙ sym (
            next_mark i
            ∙ if_false (marks i == beginning_of_stream) _ _ nb
            ∙ if_false (marks i == end_of_stream) _ _ ne),
  )

  -- what a search for data finds
  abbrev pub FoundFrom : ℕ → ℕ → Option ℕ × Bool → Type 0
  FoundFrom i n (none, now) = (data_frames i n ≡ []) × (now ≡ in_stream (i + n))
  FoundFrom i n (some j, now) =
      (k : ℕ) × (j + suc k ≡ i + n)
      × (data_frames i n ≡ data_frames j (suc k))
      × (now ≡ in_stream j)
      × (is_data j ≡ true)

  found_later :
      (i n : ℕ) (r : Option ℕ × Bool)
      → is_data i ≡ false
      → FoundFrom (i + 1) n r
      → FoundFrom i (suc n) r
  found_later i n (none, now) h (e, s) =
      let m : i + 1 + n ≡ i + suc n = omega arith in
      (skip_frame i n h ∙ e, s ∙ ap (λ k. in_stream k) m)
  found_later i n (some j, now) h (k, m, e, s, d) =
      (k, omega (arith, m), skip_frame i n h ∙ e, s, d)

-- the markers of a period
abbrev pub marks : Parameters → List ℕ → ℕ → ℕ
marks p src i = marker p src i

module _ (p : Parameters) (src : List ℕ) (producing : Bool) where
  pub contains_data-FoundFrom :
      (n i : ℕ) (now : Bool)
      → now ≡ in_stream (marks p src) producing i
      → FoundFrom (marks p src) producing i n (contains_data p src n i now)
  unfolding contains_data data_frames
  contains_data-FoundFrom zero i now e =
      let m : i ≡ i + 0 = omega arith in (refl, e ∙ ap (λ k. in_stream (marks p src) producing k) m)
  contains_data-FoundFrom (suc n) i now e =
      if_cases {A = Option ℕ × Bool} (FoundFrom (marks p src) producing i (suc n))
        (marks p src i == beginning_of_stream)
        (λ b.
          let (skipped, next) = Mark-started (marks p src) producing i b in
          found_later (marks p src) producing i n _ skipped
            (contains_data-FoundFrom n (i + 1) true next))
        (λ nb.
          if_cases {A = Option ℕ × Bool} (FoundFrom (marks p src) producing i (suc n))
            (marks p src i == end_of_stream)
            (λ b.
              let (skipped, next) = Mark-ended (marks p src) producing i nb b in
              found_later (marks p src) producing i n _ skipped
                (contains_data-FoundFrom n (i + 1) false next))
            (λ ne.
              if_cases {A = Option ℕ × Bool} (FoundFrom (marks p src) producing i (suc n))
                (marks p src i == data_marker && now)
                (λ d.
                  (n, refl, refl, e, (Mark-other (marks p src) producing i true now nb ne e d).0))
                (λ nd.
                  let (skipped, next) = Mark-other (marks p src) producing i false now nb ne e nd in
                  found_later (marks p src) producing i n _ skipped
                    (contains_data-FoundFrom n (i + 1) now next))))
