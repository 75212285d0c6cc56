-- ===== src/Encoder.antt =====
-- src/slim/EncoderBase.hpp and wave/Encoder.hpp: what turns PCM data into the bytes of a stream.
pub mod Flac
use slimstream.Base.{ℕ, ◌≡◌, refl, Bool, true, false, List, [], ◌∷◌, ◌++◌, if◌then◌else◌}

abbrev pub concat : List (List ℕ) → List ℕ
concat [] = []
concat (xs ∷ xss) = xs ++ concat xss

-- The virtual functions of an encoder and those of its getters that its users call. What an operation
-- passes to the encoded callback is its result, call by call; `stop` is less its own callback, which it
-- calls last.
pub record EncoderApi (E : Type 0) : Type 0 where
  pub get_channels : E → ℕ
  pub get_bits_per_sample : E → ℕ
  pub get_sampling_rate : E → ℕ
  pub get_mime : E → List ℕ
  pub is_running : E → Bool
  pub start : E → E
  pub encode : List ℕ → E → List (List ℕ) × E
  pub stop : E → List (List ℕ) × E

-- what a user relies on
pub record EncoderLaws {E : Type 0} (api : EncoderApi E) : Type 0 where
  pub silent : (e : E) (bs : List ℕ) → (api.encode bs (api.stop e).1).0 ≡ []

-- the encoder of WAV streams
pub record Wave : Type 0 where
  pub channels : ℕ
  pub bits_per_sample : ℕ
  pub bits_per_value : ℕ
  pub sampling_rate : ℕ
  pub extention : List ℕ
  pub mime : List ℕ
  pub running : Bool

unfoldable pub make_wave : ℕ → ℕ → ℕ → ℕ → List ℕ → List ℕ → Wave
make_wave ch bs bv sr ex mm = record {
  channels = ch;
  bits_per_sample = bs;
  bits_per_value = bv;
  sampling_rate = sr;
  extention = ex;
  mime = mm;
  running = false;
}

abbrev pub encode_wave : List ℕ → Wave → List (List ℕ) × Wave
encode_wave bs e = (if e.running then bs ∷ [] else [], e)

abbrev pub start_wave : Wave → Wave
start_wave e = record e { running = true }

abbrev pub stop_wave : Wave → List (List ℕ) × Wave
stop_wave e = ([], record e { running = false })

abbrev pub wave_api : EncoderApi Wave
wave_api = record {
  get_channels = λ e. e.channels;
  get_bits_per_sample = λ e. e.bits_per_sample;
  get_sampling_rate = λ e. e.sampling_rate;
  get_mime = λ e. e.mime;
  is_running = λ e. e.running;
  start = start_wave;
  encode = encode_wave;
  stop = stop_wave;
}

pub wave_laws : EncoderLaws wave_api
wave_laws = record { silent = λ e bs. refl }
