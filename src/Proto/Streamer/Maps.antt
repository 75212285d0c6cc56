-- ===== src/Proto/Streamer/Maps.antt =====
-- The keys of the Streamer's maps.
use slimstream.Base.{
  ℕ, ◌≡◌, refl, ap, ◌∙◌, Bool, true, false, Bool-cases, inl, inr, arith, some, List, [], ◌∷◌, ◌==◌,
  if◌then◌else◌,
}
use slimstream.Proto.Streamer.State.{find, assign, erase, update_all}

module _ {V : Type 0} where
  unfoldable pub keys : List (ℕ × V) → List ℕ
  keys [] = []
  keys ((k, v) ∷ m) = k ∷ keys m

unfoldable pub add_key : ℕ → List ℕ → List ℕ
add_key k [] = k ∷ []
add_key k (j ∷ ks) = if j == k then j ∷ ks else j ∷ add_key k ks

unfoldable pub drop_key : ℕ → List ℕ → List ℕ
drop_key k [] = []
drop_key k (j ∷ ks) = if j == k then ks else j ∷ drop_key k ks

unfoldable pub has_key : ℕ → List ℕ → Bool
has_key k [] = false
has_key k (j ∷ ks) = if j == k then true else has_key k ks

module _ {V : Type 0} where
  pub keys-assign : (k : ℕ) (v : V) (m : List (ℕ × V)) → keys (assign k v m) ≡ add_key k (keys m)
  unfolding keys assign add_key
  keys-assign k v [] = refl
  keys-assign k v ((j, w) ∷ m) = elim (Bool-cases (j == k)) [
    | inl h ↦ simp (h)
    | inr h ↦ simp (h, keys-assign k v m)
  ]

  pub keys-erase : (k : ℕ) (m : List (ℕ × V)) → keys (erase k m) ≡ drop_key k (keys m)
  unfolding keys erase drop_key
  keys-erase k [] = refl
  keys-erase k ((j, w) ∷ m) = elim (Bool-cases (j == k)) [
    | inl h ↦ simp (h)
    | inr h ↦ simp (h, keys-erase k m)
  ]

  pub keys-update_all : (f : V → V) (m : List (ℕ × V)) → keys (update_all f m) ≡ keys m
  unfolding keys update_all
  keys-update_all f [] = refl
  keys-update_all f ((j, w) ∷ m) = ap (λ ks. j ∷ ks) (keys-update_all f m)

  pub has_key-find :
      {v : V} (k : ℕ) (m : List (ℕ × V)) → find k m ≡ some v → has_key k (keys m) ≡ true
  unfolding keys find has_key
  has_key-find {v = v} k [] h = ground arith
  has_key-find {v = v} k ((j, w) ∷ m) h = ground (arith, has_key-find {v = v} k m)

pub add_key-has_key : (k : ℕ) (ks : List ℕ) → has_key k ks ≡ true → add_key k ks ≡ ks
unfolding has_key add_key
add_key-has_key k [] h = ground arith
add_key-has_key k (j ∷ ks) h = ground (arith, add_key-has_key k ks)

-- an entry that is there is replaced
pub keys-replace :
    {V : Type 0} {v : V} (k : ℕ) (w : V) (m : List (ℕ × V))
    → find k m ≡ some v
    → keys (assign k w m) ≡ keys m
keys-replace k w m h = keys-assign k w m ∙ add_key-has_key k (keys m) (has_key-find k m h)
