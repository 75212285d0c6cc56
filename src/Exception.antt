-- ===== src/Exception.antt =====
-- src/slim/Exception.hpp: what the modelled code throws, by its message, and the outcome of code that
-- may throw. `fault` is behaviour that the language leaves undefined, such as a division by zero.
use slimstream.Base.{Bool}

-- what an encoder builder is told of an encoder
pub data Parameter : Type 0 where
  builder channels bits_per_sample bits_per_value sampling_rate : Parameter
  header extention mime encoded_callback format : Parameter

pub data Exception : Type 0 where
  not_provided : Parameter → Exception
  too_small_for_fixed_part too_small too_big missing_label : Exception
  no_command_session missing_client_id no_correlated_session : Exception
  flac_verification flac_compression_level flac_streamable_subset flac_channels : Exception
  flac_sampling_rate flac_unsupported_format flac_bits_per_sample flac_initialization : Exception

pub data Outcome {ℓ} (A : Type ℓ) : Type ℓ where
  done : A → Outcome A
  thrown : Exception → Outcome A
  fault : Outcome A

infixl 5 ◌>>=◌ ◌>>◌
abbrev pub ◌>>=◌ {ℓ κ} : {A : Type ℓ} {B : Type κ} → Outcome A → (A → Outcome B) → Outcome B
done a >>= f = f a
thrown e >>= f = thrown e
fault >>= f = fault

abbrev pub ◌>>◌ {ℓ} : {B : Type ℓ} → Outcome (Unit {0}) → Outcome B → Outcome B
m >> k = m >>= λ _. k

-- `if (test) throw`
abbrev pub throw_if : Bool → Exception → Outcome (Unit {0})
throw_if Bool.true e = thrown e
throw_if Bool.false e = done tt
