-- ===== src/EncoderBuilder/Built.antt =====
-- What `build` comes to.
use mathlib.Core.List.{Memᴰ}
use mathlib.Core.Path.{subst}
use slimstream.Base.{
  ℕ, ◌≡◌, refl, sym, Bool, true, false, Option, none, some, List, [], ◌∷◌, if◌then◌else◌,
}
use slimstream.Exception.{Parameter, not_provided, Outcome, done, thrown, ◌>>=◌, ◌>>◌}
use slimstream.EncoderBuilder.{
  EncoderBuilder, required, is_some, is_provided, evaluate, call_builder, build_with, build,
}

-- the parameters that are arguments in the call of the builder
abbrev pub is_argument : Parameter → Bool
is_argument Parameter.builder = false
is_argument Parameter.format = false
is_argument _ = true

-- An order in which the arguments are evaluated: it has all of them and nothing else.
pub record IsOrder (order : List Parameter) : Type 0 where
  pub only : (p : Parameter) → Memᴰ p order → is_argument p ≡ true
  pub whole : (p : Parameter) → is_argument p ≡ true → Memᴰ p order

-- `p` is the first one that is not set, in the order `ps`.
pub data First {K E : Type 0} (b : EncoderBuilder K E) (p : Parameter)
    : List Parameter → Type 0 where
  at_head : {ps : List Parameter} → is_provided p b ≡ false → First b p (p ∷ ps)
  after_set :
      {q : Parameter} {ps : List Parameter}
      → is_provided q b ≡ true
      → First b p ps
      → First b p (q ∷ ps)

First-Memᴰ :
    {K E : Type 0} {b : EncoderBuilder K E} {p : Parameter} {ps : List Parameter}
    → First b p ps
    → Memᴰ p ps
First-Memᴰ (at_head e) = Memᴰ.head refl
First-Memᴰ (after_set e f) = Memᴰ.tail (First-Memᴰ f)

-- What the order comes to: all are set, or one is the first that is not.
data Evaluated {K E : Type 0} (b : EncoderBuilder K E) (ps : List Parameter)
    : Outcome (Unit {0}) → Type 0 where
  all_set : ((p : Parameter) → Memᴰ p ps → is_provided p b ≡ true) → Evaluated b ps (done tt)
  not_set : (p : Parameter) → First b p ps → Evaluated b ps (thrown (not_provided p))

evaluate-Evaluated :
    {K E : Type 0} (b : EncoderBuilder K E) (ps : List Parameter) → Evaluated b ps (evaluate ps b)
unfolding evaluate
evaluate-Evaluated b [] = all_set (λ p m. absurd (nothing m))
  where
    nothing : {p : Parameter} → Memᴰ p [] → ⊥
    nothing m = elim m [ ]
evaluate-Evaluated b (p ∷ ps) = by_test (is_provided p b) refl (evaluate-Evaluated b ps)
  where
    more :
        is_provided p b ≡ true
        → ((q : Parameter) → Memᴰ q ps → is_provided q b ≡ true)
        → (q : Parameter) → Memᴰ q (p ∷ ps)
        → is_provided q b ≡ true
    more h f q (Memᴰ.head e) = subst (λ x. is_provided x b ≡ true) (sym e) h
    more h f q (Memᴰ.tail m) = f q m

    add :
        {r : Outcome (Unit {0})}
        → is_provided p b ≡ true
        → Evaluated b ps r
        → Evaluated b (p ∷ ps) r
    add h (all_set f) = all_set (more h f)
    add h (not_set q f) = not_set q (after_set h f)

    by_test :
        (t : Bool)
        → is_provided p b ≡ t
        → Evaluated b ps (evaluate ps b)
        → Evaluated b (p ∷ ps) (if t then evaluate ps b else thrown (not_provided p))
    by_test true h v = add h v
    by_test false h v = not_set p (at_head h)

-- An encoder of the eight arguments and the builder, or the exception for one of them that is missing.
pub data Built {K E : Type 0} (b : EncoderBuilder K E) (order : List Parameter)
    : Outcome E → Type 0 where
  built :
      {f : ℕ → ℕ → ℕ → ℕ → Bool → List ℕ → List ℕ → K → E} {ch bs bv sr : ℕ} {hd : Bool}
      {ex mm : List ℕ} {ec : K}
      → b.builder ≡ some f
      → b.channels ≡ some ch
      → b.bits_per_sample ≡ some bs
      → b.bits_per_value ≡ some bv
      → b.sampling_rate ≡ some sr
      → b.header ≡ some hd
      → b.extention ≡ some ex
      → b.mime ≡ some mm
      → b.encoded_callback ≡ some ec
      → Built b order (done (f ch bs bv sr hd ex mm ec))
  no_builder : b.builder ≡ none → Built b order (thrown (not_provided Parameter.builder))
  missing :
      {f : ℕ → ℕ → ℕ → ℕ → Bool → List ℕ → List ℕ → K → E} (p : Parameter)
      → b.builder ≡ some f
      → is_argument p ≡ true
      → First b p order
      → Built b order (thrown (not_provided p))

module _ {K E : Type 0} (b : EncoderBuilder K E) {order : List Parameter} where
  -- one getter whose parameter is set, and what follows it
  getter :
      {A : Type 0} (p : Parameter) (o o' : Option A) (k : A → Outcome E)
      → o' ≡ o
      → is_some o ≡ true
      → ((x : A) → o' ≡ some x → Built b order (k x))
      → Built b order (required p o >>= k)
  getter p none o' k e q h = absurd cc
  getter p (some x) o' k e q h = h x e

  call-Built :
      (f : ℕ → ℕ → ℕ → ℕ → Bool → List ℕ → List ℕ → K → E)
      → b.builder ≡ some f
      → ((p : Parameter) → is_argument p ≡ true → is_provided p b ≡ true)
      → Built b order (call_builder f b)
  call-Built f e set =
      getter Parameter.channels b.channels b.channels _ refl (set Parameter.channels refl) (λ ch e1.
        getter Parameter.bits_per_sample b.bits_per_sample b.bits_per_sample _ refl
          (set Parameter.bits_per_sample refl)
          (λ bs e2.
            getter Parameter.bits_per_value b.bits_per_value b.bits_per_value _ refl
              (set Parameter.bits_per_value refl)
              (λ bv e3.
                getter Parameter.sampling_rate b.sampling_rate b.sampling_rate _ refl
                  (set Parameter.sampling_rate refl)
                  (λ sr e4.
                    getter Parameter.header b.header b.header _ refl (set Parameter.header refl)
                      (λ hd e5.
                        getter Parameter.extention b.extention b.extention _ refl
                          (set Parameter.extention refl)
                          (λ ex e6.
                            getter Parameter.mime b.mime b.mime _ refl (set Parameter.mime refl)
                              (λ mm e7.
                                getter Parameter.encoded_callback b.encoded_callback
                                  b.encoded_callback (λ ec. done (f ch bs bv sr hd ex mm ec)) refl
                                  (set Parameter.encoded_callback refl)
                                  (λ ec e8. built e e1 e2 e3 e4 e5 e6 e7 e8))))))))

  -- In whatever order the arguments of the call are evaluated: build throws the exception for the builder
  -- if that is not set; otherwise it throws the one for the first argument in this order that is not
  -- set, or comes to the encoder that the builder makes of the eight arguments, all of them being set.
  pub build-Built : IsOrder order → Built b order (build order b)
  unfolding build
  build-Built o = from_builder b.builder refl
    where
      evaluated :
          {r : Outcome (Unit {0})} (f : ℕ → ℕ → ℕ → ℕ → Bool → List ℕ → List ℕ → K → E)
          → b.builder ≡ some f
          → Evaluated b order r
          → Built b order (r >> call_builder f b)
      evaluated f e (all_set h) = call-Built f e (λ p a. h p (o.whole p a))
      evaluated f e (not_set p n) = missing p e (o.only p (First-Memᴰ n)) n

      from_builder :
          (o' : Option (ℕ → ℕ → ℕ → ℕ → Bool → List ℕ → List ℕ → K → E))
          → b.builder ≡ o'
          → Built b order (build_with order o' b)
      from_builder none e = no_builder e
      from_builder (some f) e = evaluated f e (evaluate-Evaluated b order)
