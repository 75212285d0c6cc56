-- ===== src/Alsa/Source/Bounds.antt =====
-- The chunks of a source stay within the buffers of the queue.
use mathlib.Core.Path.{subst}
use slimstream.Base.{
  ℕ, zero, suc, ◌+◌, ◌-◌, ◌*◌, ◌≤◌, ◌<◌, ◌≡◌, refl, ap, ◌∙◌, sym, if_cases, Bool, true, false,
  Option, none, some, List, [], ◌∷◌, length, drop, arith, ◌==◌, length-append, length-drop,
}
use slimstream.Chunk.{Chunk, clear, allocate_buffer}
use slimstream.Util.Time.{Timestamp}
use slimstream.Alsa.Parameters.{
  Parameters, get_frames_per_chunk, get_logical_channels, bytes_per_sample,
}
use slimstream.Alsa.Source.{slot_size, initialize_slot, Source, produce_period}
use slimstream.Alsa.Source.Marks.{is_data, data_frames, marks}
use slimstream.Alsa.Source.Extract.{width, payloads, length-payloads}
use slimstream.Alsa.Source.Period.{outcome, data_chunk, produce_period-outcome}

module _ (p : Parameters) (slot : Chunk) (timestamp : Timestamp) (src : List ℕ) (s : Source) where
  -- What holds of a chunk that goes into the queue: its buffer is that of the slot, and its frames are
  -- in it.
  pub data Fits : Option Chunk → Type 0 where
    no_chunk : Fits none
    fits :
        {c : Chunk}
        → length c.buffer ≡ length slot.buffer
        → c.frames * width p src ≤ length c.buffer
        → Fits (some c)

  length-data_frames : (i n : ℕ) → length (data_frames (marks p src) s.producing i n) ≤ n
  unfolding data_frames
  length-data_frames i zero = omega arith
  length-data_frames i (suc n) =
      if_cases {A = List ℕ} (λ is. length is ≤ suc n) (is_data (marks p src) s.producing i)
        (λ _. let le = length-data_frames (i + 1) n in omega (arith, le))
        (λ _. let le = length-data_frames (i + 1) n in omega (arith, le))

  outcome-Fits :
      (full : Bool) (is : List ℕ) (now : Bool) (n : ℕ)
      → length is ≤ n
      → n * width p src ≤ length slot.buffer
      → Fits (outcome p slot timestamp src s full is now).1
  outcome-Fits true [] now n le h = no_chunk
  outcome-Fits true (i ∷ is) now n le h = no_chunk
  outcome-Fits false [] now n le h =
      if_cases {A = Source × Option Chunk} (λ r. Fits r.1) s.is_beginning_of_stream (λ _. no_chunk)
        (λ _. fits refl (omega arith))
  outcome-Fits false (i ∷ is) now n le h = fits size (omega (arith, size, used))
    where
      used : length (i ∷ is) * width p src ≤ length slot.buffer
      used =
          let d : n ≡ length (i ∷ is) + (n - length (i ∷ is)) = omega (arith, le) in
          let m : (length (i ∷ is) + (n - length (i ∷ is))) * width p src
              ≡ length (i ∷ is) * width p src + (n - length (i ∷ is)) * width p src =
            omega arith in
          let e = ap (λ k. k * width p src) d ∙ m in omega (arith, e, h)

      size : length (data_chunk p slot timestamp src s (i ∷ is)).buffer ≡ length slot.buffer
      size =
          let a =
            length-append (payloads p src (i ∷ is))
              (drop (length (i ∷ is) * width p src) slot.buffer) in
          let b = length-payloads p src (i ∷ is) in
          let c = length-drop (length (i ∷ is) * width p src) slot.buffer in
          omega (arith, a, b, c, used)

  -- A period of at least one frame, for all of whose frames, less the last channel, the buffer of
  -- the slot has room, comes to no chunk, or to one with a buffer of the same size that has all of
  -- its frames.
  pub produce_period-Fits :
      (full : Bool) (n : ℕ)
      → 0 < n
      → n * width p src ≤ length slot.buffer
      → Fits (produce_period p full slot timestamp src n s).1
  produce_period-Fits full n h le =
      subst {A = Source × Option Chunk} (λ r. Fits r.1)
        (sym (produce_period-outcome p slot timestamp src s full n h))
        (outcome-Fits full _ _ n (length-data_frames 0 n) le)

length-allocate_buffer :
    (size : ℕ) (memory : List ℕ) (c : Chunk)
    → length memory ≡ size
    → length (allocate_buffer size memory c).buffer ≡ size
unfolding allocate_buffer clear
length-allocate_buffer size memory c h =
    if_cases {A = Chunk} (λ d. length d.buffer ≡ size) (length c.buffer == size)
      (λ e. ground (arith, e)) (λ _. h)

-- A slot of the queue has room for a period of no more frames than a chunk is to have.
pub initialize_slot-room :
    (p : Parameters) (memory src : List ℕ) (slot : Chunk) (n : ℕ)
    → length memory ≡ slot_size p
    → n ≤ get_frames_per_chunk p
    → n * width p src ≤ length (initialize_slot p memory slot).buffer
initialize_slot-room p memory src slot n h le =
    let size = length-allocate_buffer (slot_size p) memory slot h in
    let room =
      product (get_frames_per_chunk p) n (get_logical_channels p) (bytes_per_sample p) le in
    omega (arith, size, room)
  where
    product : (f n c b : ℕ) → n ≤ f → n * (c * b) ≤ f * c * b
    product f n c b le =
        let d : f ≡ n + (f - n) = omega (arith, le) in
        let e : f * c * b ≡ f * (c * b) = omega arith in
        let m : (n + (f - n)) * (c * b) ≡ n * (c * b) + (f - n) * (c * b) = omega arith in
        let g = ap (λ k. k * (c * b)) d ∙ m in omega (arith, e, g)
