-- ===== src/Encoder/Flac/Ends.antt =====
-- How an encoder of FLAC starts and stops.
use mathlib.Core.Path.{subst}
use slimstream.Base.{
  ℕ, ◌≡◌, refl, sym, ap, Bool, true, false, List, [], ◌∷◌, ◌++◌, if_cases, if_false, if◌then◌else◌,
  ltb, min, ◌==◌, arith,
}
use slimstream.Exception.{
  Exception, flac_verification, flac_compression_level, flac_streamable_subset, flac_channels,
  flac_sampling_rate, flac_unsupported_format, flac_bits_per_sample, flac_initialization,
}
use slimstream.Encoder.Flac.{
  Flac, FlacApi, Started, succeeded, threw, start, stop, encode, require, set_format, set_values,
  initialize, set_rate, set_channels, set_subset, set_level,
}

-- A stopped encoder passes nothing on.
pub encode-stop :
    {F : Type 0} (api : FlacApi F) (e : Flac F) (bs : List ℕ)
    → (encode api bs (stop api e).1).0 ≡ []
unfolding encode stop
encode-stop {F} api e bs =
    if_cases {A = List (List ℕ) × Flac F} (λ p. (encode api bs p.1).0 ≡ []) e.running (λ _. refl)
      (λ z. ap {A = List (List ℕ) × Flac F} (λ q. q.0) (if_false e.running _ _ z))

-- A call of libFLAC that `start` makes, with the exception for its refusal.
abbrev pub Call : Type 0 → Type 0
Call F = Exception × (F → Bool × F)

-- libFLAC accepts all calls, one after the other.
pub data Accepted {F : Type 0} : List (Call F) → F → F → Type 0 where
  all_made : {f : F} → Accepted [] f f
  accepts :
      {x : Exception} {g : F → Bool × F} {cs : List (Call F)} {f f' : F}
      → (g f).0 ≡ true
      → Accepted cs (g f).1 f'
      → Accepted ((x, g) ∷ cs) f f'

-- libFLAC accepts the first calls and refuses the next one, whose exception is `x`.
pub data Refused {F : Type 0} : List (Call F) → Exception → F → F → Type 0 where
  refuses :
      {x : Exception} {g : F → Bool × F} {cs : List (Call F)} {f : F}
      → (g f).0 ≡ false
      → Refused ((x, g) ∷ cs) x f (g f).1
  later :
      {x y : Exception} {g : F → Bool × F} {cs : List (Call F)} {f f' : F}
      → (g f).0 ≡ true
      → Refused cs x (g f).1 f'
      → Refused ((y, g) ∷ cs) x f f'

module _ {F : Type 0} (api : FlacApi F) where
  -- the calls after the test of the size of samples: values have at most 24 bits
  abbrev pub value_calls : Flac F → List (Call F)
  value_calls e =
      (flac_bits_per_sample, api.set_bits_per_sample (min 24 e.bits_per_value))
      ∷ (flac_initialization, api.init)
      ∷ []

  -- the calls before it
  abbrev pub setter_calls : Flac F → List (Call F)
  setter_calls e =
      (flac_verification, api.set_verify false)
      ∷ (flac_compression_level, api.set_compression_level 0)
      ∷ (flac_streamable_subset, api.set_streamable_subset true)
      ∷ (flac_channels, api.set_channels e.channels)
      ∷ (flac_sampling_rate, api.set_sample_rate e.sampling_rate)
      ∷ []

  -- Samples that are not of 32 bits are refused by the encoder itself.
  abbrev pub start_calls : Flac F → List (Call F)
  start_calls e =
      setter_calls e
      ++ (if e.bits_per_sample == 32
          then value_calls e
          else (flac_unsupported_format, λ f. (false, f)) ∷ [])

-- What `start` did with the stopped encoder `e`, when the calls `cs` are still to be made on the stream
-- `f`.
pub data StartedAs {F : Type 0} (e : Flac F) (cs : List (Call F)) (f : F) : Started F → Type 0 where
  runs :
      {t : Flac F}
      → Accepted cs f t.stream
      → t.running ≡ true
      → t.bits_per_sample ≡ e.bits_per_sample
      → t.channels ≡ e.channels
      → t.down_scale ≡ ltb 24 e.bits_per_value
      → StartedAs e cs f (succeeded t)
  rejected :
      {x : Exception} {t : Flac F}
      → Refused cs x f t.stream
      → t.running ≡ false
      → StartedAs e cs f (threw x t)

module _ {F : Type 0} (e : Flac F) where
  after_call :
      {x : Exception} {g : F → Bool × F} {cs : List (Call F)} {f : F} {r : Started F}
      → (g f).0 ≡ true
      → StartedAs e cs (g f).1 r
      → StartedAs e ((x, g) ∷ cs) f r
  after_call a (runs all r b c d) = runs (accepts a all) r b c d
  after_call a (rejected n i) = rejected (later a n) i

  -- one call, and what follows it
  require-StartedAs :
      (x : Exception) (t : Flac F) (g : F → Bool × F) (f : F) (cs : List (Call F))
      (next : Flac F → Started F)
      → t.running ≡ false
      → StartedAs e cs (g f).1 (next (record t { stream = (g f).1 }))
      → StartedAs e ((x, g) ∷ cs) f (require x t (g f) next)
  require-StartedAs x t g f cs next i h = by_answer (g f) refl
    where
      by_answer : (r : Bool × F) → g f ≡ r → StartedAs e ((x, g) ∷ cs) f (require x t r next)
      by_answer (true, f') q =
          after_call (ap (λ p. p.0) q)
            (subst (λ p. StartedAs e cs (g f).1 (next (record t { stream = p.1 }))) q h)
      by_answer (false, f') q =
          subst (λ p. StartedAs e ((x, g) ∷ cs) f (threw x (record t { stream = p.1 }))) q
            (rejected (refuses (ap (λ p. p.0) q)) i)

  module _ (api : FlacApi F) (idle : e.running ≡ false) where
    initialize-StartedAs :
        (d : Bool) (f : F)
        → d ≡ ltb 24 e.bits_per_value
        → StartedAs e
            ((flac_initialization, api.init) ∷ [])
            f
            (initialize api (record e { down_scale = d; stream = f }))
    initialize-StartedAs d f h =
        require-StartedAs flac_initialization (record e { down_scale = d; stream = f }) api.init f
          [] (λ u. succeeded (record u { running = true })) idle (runs all_made refl refl refl h)

    -- the call of `set_bits_per_sample` for `n` bits, and what follows it
    bits-StartedAs :
        (d : Bool) (n : ℕ) (f : F)
        → d ≡ ltb 24 e.bits_per_value
        → n ≡ min 24 e.bits_per_value
        → StartedAs e (value_calls api e) f (
            require flac_bits_per_sample
              (record e { down_scale = d; stream = f })
              (api.set_bits_per_sample n f)
              (initialize api))
    bits-StartedAs d n f h m =
        subst
          (λ k.
            StartedAs e
              ((flac_bits_per_sample, api.set_bits_per_sample k)
                ∷ (flac_initialization, api.init)
                ∷ [])
              f
              (require flac_bits_per_sample (record e { down_scale = d; stream = f })
                (api.set_bits_per_sample n f) (initialize api)))
          m
          (require-StartedAs flac_bits_per_sample (record e { down_scale = d; stream = f })
            (api.set_bits_per_sample n) f ((flac_initialization, api.init) ∷ []) (initialize api)
            idle (initialize-StartedAs d (api.set_bits_per_sample n f).1 h))

    set_values-StartedAs :
        (f : F)
        → e.down_scale ≡ false
        → StartedAs e (value_calls api e) f (set_values api (record e { stream = f }))
    set_values-StartedAs f d =
        if_cases (StartedAs e (value_calls api e) f) (ltb 24 e.bits_per_value)
          (λ h. bits-StartedAs true 24 f (sym h) (ground (arith, h)))
          (λ h.
            subst
              (λ b. StartedAs e (value_calls api e) f (
                require flac_bits_per_sample (record e { down_scale = b; stream = f })
                  (api.set_bits_per_sample e.bits_per_value f) (initialize api)))
              (sym d) (bits-StartedAs false e.bits_per_value f (sym h) (ground (arith, h))))

    set_format-StartedAs :
        (f : F)
        → e.down_scale ≡ false
        → StartedAs e
            (if e.bits_per_sample == 32
              then value_calls api e
              else (flac_unsupported_format, λ g. (false, g)) ∷ [])
            f
            (set_format api (record e { stream = f }))
    set_format-StartedAs f d = by_size (e.bits_per_sample == 32)
      where
        by_size :
            (b : Bool)
            → StartedAs e
                (if b then value_calls api e else (flac_unsupported_format, λ g. (false, g)) ∷ [])
                f
                (if b
                  then set_values api (record e { stream = f })
                  else threw flac_unsupported_format (record e { stream = f }))
        by_size true = set_values-StartedAs f d
        by_size false = rejected (refuses refl) idle

    -- one setter, and what follows it
    setter-StartedAs :
        (x : Exception) (g : F → Bool × F) (cs : List (Call F)) (next : Flac F → Started F)
        → ((f : F) → StartedAs e cs f (next (record e { stream = f })))
        → (f : F) → StartedAs e ((x, g) ∷ cs) f (require x (record e { stream = f }) (g f) next)
    setter-StartedAs x g cs next h f =
        require-StartedAs x (record e { stream = f }) g f cs next idle (h (g f).1)

    -- A new encoder is started exactly as libFLAC answers. If it accepts all calls, which set no
    -- verification, the compression level 0, the subset for streams, the encoder's channels and sampling
    -- rate, and for samples of 32 bits values of at most 24 bits, and initialize the stream, then the
    -- encoder runs on the stream they leave, with its channels unchanged, downscaling exactly if its
    -- values have more than 24 bits. Otherwise start throws the exception of the first call that is
    -- refused, or the one for the size of samples where the calls before are accepted, and makes no
    -- further call; the encoder does not run.
    pub start-StartedAs :
        e.down_scale ≡ false → StartedAs e (start_calls api e) e.stream (start api e)
    unfolding start
    start-StartedAs d =
        subst (StartedAs e (start_calls api e) e.stream) (sym (if_false e.running _ _ idle)) (
          setter-StartedAs flac_verification (api.set_verify false) _ (set_level api)
            (setter-StartedAs flac_compression_level (api.set_compression_level 0) _
              (set_subset api)
              (setter-StartedAs flac_streamable_subset (api.set_streamable_subset true) _
                (set_channels api)
                (setter-StartedAs flac_channels (api.set_channels e.channels) _ (set_rate api) (
                  setter-StartedAs flac_sampling_rate (api.set_sample_rate e.sampling_rate) _
                    (set_format api) (λ f. set_format-StartedAs f d)))))
            e.stream)
