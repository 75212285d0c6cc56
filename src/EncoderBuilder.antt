-- ===== src/EncoderBuilder.antt =====
-- src/slim/EncoderBuilder.hpp: the parameters of an encoder, and the encoder made of them.
pub mod Built
use slimstream.Base.{ℕ, Bool, true, false, Option, none, some, List, [], ◌∷◌, if◌then◌else◌}
use slimstream.Exception.{Exception, Parameter, not_provided, Outcome, done, thrown, ◌>>=◌, ◌>>◌}
use slimstream.Proto.Server.Strm.{FormatSelection}

-- `K` is the type of encoded callbacks. The arguments of `builder` are in the source's order.
pub record EncoderBuilder (K E : Type 0) : Type 0 where
  pub builder : Option (ℕ → ℕ → ℕ → ℕ → Bool → List ℕ → List ℕ → K → E)
  pub channels : Option ℕ
  pub sampling_rate : Option ℕ
  pub bits_per_sample : Option ℕ
  pub bits_per_value : Option ℕ
  pub extention : Option (List ℕ)
  pub format : Option FormatSelection
  pub header : Option Bool
  pub mime : Option (List ℕ)
  pub encoded_callback : Option K

unfoldable pub make_builder : {K E : Type 0} → EncoderBuilder K E
make_builder = record {
  builder = none;
  channels = none;
  sampling_rate = none;
  bits_per_sample = none;
  bits_per_value = none;
  extention = none;
  format = none;
  header = none;
  mime = none;
  encoded_callback = none;
}

-- the value of a parameter, which is missed if it was not set
abbrev pub required : {A : Type 0} → Parameter → Option A → Outcome A
required p none = thrown (not_provided p)
required p (some x) = done x

abbrev pub is_some : {A : Type 0} → Option A → Bool
is_some none = false
is_some (some x) = true

module _ {K E : Type 0} where
  abbrev pub get_channels : EncoderBuilder K E → Outcome ℕ
  get_channels b = required Parameter.channels b.channels

  abbrev pub get_bits_per_sample : EncoderBuilder K E → Outcome ℕ
  get_bits_per_sample b = required Parameter.bits_per_sample b.bits_per_sample

  abbrev pub get_bits_per_value : EncoderBuilder K E → Outcome ℕ
  get_bits_per_value b = required Parameter.bits_per_value b.bits_per_value

  abbrev pub get_sampling_rate : EncoderBuilder K E → Outcome ℕ
  get_sampling_rate b = required Parameter.sampling_rate b.sampling_rate

  abbrev pub get_header : EncoderBuilder K E → Outcome Bool
  get_header b = required Parameter.header b.header

  abbrev pub get_extention : EncoderBuilder K E → Outcome (List ℕ)
  get_extention b = required Parameter.extention b.extention

  abbrev pub get_mime : EncoderBuilder K E → Outcome (List ℕ)
  get_mime b = required Parameter.mime b.mime

  abbrev pub get_format : EncoderBuilder K E → Outcome FormatSelection
  get_format b = required Parameter.format b.format

  abbrev pub get_encoded_callback : EncoderBuilder K E → Outcome K
  get_encoded_callback b = required Parameter.encoded_callback b.encoded_callback

  -- whether a parameter was set
  abbrev pub is_provided : Parameter → EncoderBuilder K E → Bool
  is_provided Parameter.builder b = is_some b.builder
  is_provided Parameter.channels b = is_some b.channels
  is_provided Parameter.bits_per_sample b = is_some b.bits_per_sample
  is_provided Parameter.bits_per_value b = is_some b.bits_per_value
  is_provided Parameter.sampling_rate b = is_some b.sampling_rate
  is_provided Parameter.header b = is_some b.header
  is_provided Parameter.extention b = is_some b.extention
  is_provided Parameter.mime b = is_some b.mime
  is_provided Parameter.encoded_callback b = is_some b.encoded_callback
  is_provided Parameter.format b = is_some b.format

  -- The compiler chooses in which order the getters in the call of the builder run: the first one in
  -- this order that throws is the one whose exception is seen.
  unfoldable pub evaluate : List Parameter → EncoderBuilder K E → Outcome (Unit {0})
  evaluate [] b = done tt
  evaluate (p ∷ ps) b =
      let rest = evaluate ps b in if is_provided p b then rest else thrown (not_provided p)

  abbrev pub call_builder :
      (ℕ → ℕ → ℕ → ℕ → Bool → List ℕ → List ℕ → K → E) → EncoderBuilder K E → Outcome E
  call_builder f b = get_channels b >>= λ ch. get_bits_per_sample b >>= λ bs.
      get_bits_per_value b >>= λ bv. get_sampling_rate b >>= λ sr. get_header b >>= λ hd.
      get_extention b >>= λ ex.
      get_mime b >>= λ mm. get_encoded_callback b >>= λ ec. done (f ch bs bv sr hd ex mm ec)

  abbrev pub build_with :
      List Parameter
      → Option (ℕ → ℕ → ℕ → ℕ → Bool → List ℕ → List ℕ → K → E)
      → EncoderBuilder K E
      → Outcome E
  build_with order none b = thrown (not_provided Parameter.builder)
  build_with order (some f) b = evaluate order b >> call_builder f b

  unfoldable pub build : List Parameter → EncoderBuilder K E → Outcome E
  build order b = build_with order b.builder b
