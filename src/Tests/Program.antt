-- ===== src/Tests/Program.antt =====
-- The encoder builder and the program at concrete inputs.
use mathlib.Core.List.{Memᴰ}
use mathlib.Core.Path.{subst}
use slimstream.Base.{ℕ, ◌≡◌, refl, sym, some, List, [], ◌∷◌, false, true}
use slimstream.Exception.{Parameter}
use slimstream.Encoder.{Wave, make_wave}
use slimstream.EncoderBuilder.{EncoderBuilder, make_builder, build}
use slimstream.EncoderBuilder.Built.{is_argument, IsOrder, Built, build-Built}
use slimstream.Proto.Server.Strm.{pcm}

-- callbacks are numbers
abbrev builder : EncoderBuilder ℕ Wave
builder = record make_builder {
  builder = some (λ ch bs bv sr hd ex mm ec. make_wave ch bs bv sr ex mm);
  channels = some 2;
  bits_per_sample = some 32;
  bits_per_value = some 32;
  header = some false;
  format = some pcm;
  extention = some [];
  mime = some [];
  encoded_callback = some 0;
}

abbrev order : List Parameter
order =
    Parameter.encoded_callback ∷ Parameter.sampling_rate ∷ Parameter.mime ∷ Parameter.extention
    ∷ Parameter.header ∷ Parameter.bits_per_value ∷ Parameter.bits_per_sample ∷ Parameter.channels
    ∷ []

order-IsOrder : IsOrder order
order-IsOrder = record {
  only = arguments order (refl, (refl, (refl, (refl, (refl, (refl, (refl, (refl, tt))))))));
  whole = found;
}
  where
    AllTrue : List Parameter → Type 0
    AllTrue [] = Unit {0}
    AllTrue (p ∷ ps) = (is_argument p ≡ true) × AllTrue ps

    arguments :
        (ps : List Parameter) → AllTrue ps → (p : Parameter) → Memᴰ p ps → is_argument p ≡ true
    arguments [] h p m = elim m [ ]
    arguments (q ∷ ps) (a, h) p (Memᴰ.head e) = subst (λ x. is_argument x ≡ true) (sym e) a
    arguments (q ∷ ps) (a, h) p (Memᴰ.tail m) = arguments ps h p m

    found : (p : Parameter) → is_argument p ≡ true → Memᴰ p order
    found Parameter.encoded_callback h = Memᴰ.head refl
    found Parameter.sampling_rate h = Memᴰ.tail (Memᴰ.head refl)
    found Parameter.mime h = Memᴰ.tail (Memᴰ.tail (Memᴰ.head refl))
    found Parameter.extention h = Memᴰ.tail (Memᴰ.tail (Memᴰ.tail (Memᴰ.head refl)))
    found Parameter.header h = Memᴰ.tail (Memᴰ.tail (Memᴰ.tail (Memᴰ.tail (Memᴰ.head refl))))
    found Parameter.bits_per_value h =
        Memᴰ.tail (Memᴰ.tail (Memᴰ.tail (Memᴰ.tail (Memᴰ.tail (Memᴰ.head refl)))))
    found Parameter.bits_per_sample h =
        Memᴰ.tail (Memᴰ.tail (Memᴰ.tail (Memᴰ.tail (Memᴰ.tail (Memᴰ.tail (Memᴰ.head refl))))))
    found Parameter.channels h =
        Memᴰ.tail
          (Memᴰ.tail (Memᴰ.tail (Memᴰ.tail (Memᴰ.tail (Memᴰ.tail (Memᴰ.tail (Memᴰ.head refl)))))))
    found Parameter.builder h = absurd cc
    found Parameter.format h = absurd cc

-- the sampling rate is missing
build-Built_example : Built builder order (build order builder)
build-Built_example = build-Built builder order-IsOrder
