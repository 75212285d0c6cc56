-- ===== src/Encoder/Flac.antt =====
-- src/slim/flac/Encoder.hpp: the encoder of FLAC streams, over libFLAC.
pub mod Words
pub mod Ends
use slimstream.Base.{
  ℕ, ◌+◌, ◌-◌, ◌*◌, ◌/◌, zero, suc, Bool, true, false, not, List, [], ◌∷◌, ◌++◌, length, take, drop,
  ltb, ◌==◌, if◌then◌else◌,
}
use slimstream.Exception.{
  Exception, flac_verification, flac_compression_level, flac_streamable_subset, flac_channels,
  flac_sampling_rate, flac_unsupported_format, flac_bits_per_sample, flac_initialization,
}

-- The functions of libFLAC that the encoder calls, on the state of a stream. A setter and `init` tell
-- whether they succeeded; `process_interleaved` reads the memory and gets the number of frames, and
-- it and `finish` may call the write callback, with the bytes listed.
pub record FlacApi (F : Type 0) : Type 0 where
  pub set_verify : Bool → F → Bool × F
  pub set_compression_level : ℕ → F → Bool × F
  pub set_streamable_subset : Bool → F → Bool × F
  pub set_channels : ℕ → F → Bool × F
  pub set_sample_rate : ℕ → F → Bool × F
  pub set_bits_per_sample : ℕ → F → Bool × F
  pub init : F → Bool × F
  pub process_interleaved : List ℕ → ℕ → F → Bool × List (List ℕ) × F
  pub finish : F → Bool × List (List ℕ) × F

pub record Flac (F : Type 0) : Type 0 where
  pub channels : ℕ
  pub bits_per_sample : ℕ
  pub bits_per_value : ℕ
  pub sampling_rate : ℕ
  pub extention : List ℕ
  pub mime : List ℕ
  pub running : Bool
  pub down_scale : Bool
  pub stream : F

-- the constructor, on a new stream of libFLAC
unfoldable pub make_flac : {F : Type 0} → F → ℕ → ℕ → ℕ → ℕ → List ℕ → List ℕ → Flac F
make_flac f ch bs bv sr ex mm = record {
  channels = ch;
  bits_per_sample = bs;
  bits_per_value = bv;
  sampling_rate = sr;
  extention = ex;
  mime = mm;
  running = false;
  down_scale = false;
  stream = f;
}

-- Every `n`-th byte becomes 0, the first of them after `k` others: the loop of the downscaling.
unfoldable pub zero_every : ℕ → ℕ → List ℕ → List ℕ
zero_every n k [] = []
zero_every n zero (b ∷ bs) = 0 ∷ zero_every n (n - 1) bs
zero_every n (suc k) (b ∷ bs) = b ∷ zero_every n k bs

-- the frame that is handled by itself: the last one, less its first byte, and a 0
abbrev pub last_frame : ℕ → List ℕ → List ℕ
last_frame size data' = take (size - 1) (drop 1 (drop (length data' - size) data')) ++ 0 ∷ []

-- The calls for a number of frames: the memory that each reads, `wide` bytes for a frame, and its number
-- of frames. Those before the last frame are in place, one byte further on.
abbrev pub calls_for : ℕ → ℕ → ℕ → List ℕ → List (List ℕ × ℕ)
calls_for frames wide size data' =
    (if ltb 1 frames then (take ((frames - 1) * wide) (drop 1 data'), frames - 1) ∷ [] else [])
    ++ (if ltb 0 frames then (last_frame size data', 1) ∷ [] else [])

module _ {F : Type 0} where
  abbrev pub sample_size : Flac F → ℕ
  sample_size e = e.bits_per_sample / 8

  abbrev pub frame_size : Flac F → ℕ
  frame_size e = sample_size e * e.channels

  -- Values of more than 24 bits are downscaled, in the memory of the caller.
  abbrev pub downscaled : Flac F → List ℕ → List ℕ
  downscaled e bs = if e.down_scale then zero_every (sample_size e) 0 bs else bs

  -- the calls of `process_interleaved`
  unfoldable pub calls : Flac F → List ℕ → List (List ℕ × ℕ)
  calls e bs =
      calls_for (length bs / frame_size e) (4 * e.channels) (frame_size e) (downscaled e bs)

module _ {F : Type 0} (api : FlacApi F) where
  -- A call that fails is logged.
  unfoldable pub process_all : List (List ℕ × ℕ) → F → List (List ℕ) × F
  process_all [] f = ([], f)
  process_all ((memory, frames) ∷ cs) f =
      let (done, pieces, f') = api.process_interleaved memory frames f in
      let (rest, f'') = process_all cs f' in (pieces ++ rest, f'')

  unfoldable pub encode : List ℕ → Flac F → List (List ℕ) × Flac F
  encode bs e =
      if e.running
      then (let (pieces, f) = process_all (calls e bs) e.stream in
          (pieces, record e { stream = f }))
      else ([], e)

  unfoldable pub stop : Flac F → List (List ℕ) × Flac F
  stop e =
      if e.running
      then (let (done, pieces, f) = api.finish e.stream in
          (pieces, record e { stream = f; running = false }))
      else ([], e)

-- The encoder that `start` leaves, by an exception or not.
pub data Started (F : Type 0) : Type 0 where
  succeeded : Flac F → Started F
  threw : Exception → Flac F → Started F

module _ {F : Type 0} where
  -- `if (!result) throw`, and what follows
  abbrev pub require : Exception → Flac F → Bool × F → (Flac F → Started F) → Started F
  require x e (true, f) next = next (record e { stream = f })
  require x e (false, f) next = threw x (record e { stream = f })

module _ {F : Type 0} (api : FlacApi F) where
  abbrev pub initialize : Flac F → Started F
  initialize e =
      require flac_initialization e (api.init e.stream)
        (λ t. succeeded (record t { running = true }))

  abbrev pub set_values : Flac F → Started F
  set_values e =
      if ltb 24 e.bits_per_value
      then require flac_bits_per_sample (record e { down_scale = true })
          (api.set_bits_per_sample 24 e.stream) initialize
      else require flac_bits_per_sample e (api.set_bits_per_sample e.bits_per_value e.stream)
          initialize

  -- only samples of 32 bits are supported
  abbrev pub set_format : Flac F → Started F
  set_format e = if e.bits_per_sample == 32 then set_values e else threw flac_unsupported_format e

  abbrev pub set_rate : Flac F → Started F
  set_rate e =
      require flac_sampling_rate e (api.set_sample_rate e.sampling_rate e.stream) set_format

  abbrev pub set_channels : Flac F → Started F
  set_channels e = require flac_channels e (api.set_channels e.channels e.stream) set_rate

  abbrev pub set_subset : Flac F → Started F
  set_subset e =
      require flac_streamable_subset e (api.set_streamable_subset true e.stream) set_channels

  abbrev pub set_level : Flac F → Started F
  set_level e = require flac_compression_level e (api.set_compression_level 0 e.stream) set_subset

  unfoldable pub start : Flac F → Started F
  start e =
      if e.running
      then succeeded e
      else require flac_verification e (api.set_verify false e.stream) set_level
