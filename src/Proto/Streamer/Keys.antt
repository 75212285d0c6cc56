-- ===== src/Proto/Streamer/Keys.antt =====
-- The connections that have a command session.
use slimstream.Base.{
  ℕ, ◌≡◌, ◌≢◌, refl, ap, ◌∙◌, true, false, Option, none, some, List, [], ◌∷◌, ◌==◌, arith, if_cases,
  Bool-cases, inl, inr,
}
use slimstream.Chunk.{Chunk}
use slimstream.Util.Time.{Timestamp}
use slimstream.Proto.CommandSession.State.{Session, Env}
use slimstream.Proto.Streamer.State.{StreamingApi, find}
use slimstream.Proto.Streamer.Maps.{keys, add_key, drop_key, has_key, keys-update_all, keys-replace}
use slimstream.Proto.Streamer.Chunks.{Sessions, give, give_one}
use slimstream.Proto.Streamer.Kept.{Kept}

module _ {T : Type 0} (api : StreamingApi T) (now : Timestamp) where
  keys-give_one :
      (env : Env) (c : Chunk) (k : ℕ) (w : Sessions api now) (o : Option Session)
      → find k w.0 ≡ o
      → keys (give_one api now env c k w o).1.0 ≡ keys w.0
  keys-give_one env c k w none e = refl
  keys-give_one env c k (cs, ts) (some s) e = keys-replace k _ cs e

  keys-give :
      (env : Env) (c : Chunk) (k : ℕ) (w : Sessions api now)
      → keys (give api now env c k w).1.0 ≡ keys w.0
  unfolding give
  keys-give env c k w = keys-give_one env c k w (find k w.0) refl

  -- Chunks and events of the Streamer neither add nor remove a command session.
  pub kept-keys : (ks : List ℕ) → Kept api now (λ cs ts. keys cs ≡ ks)
  kept-keys ks = record {
    of_prepare = λ env rate cs ts r e. keys-update_all _ cs ∙ e;
    of_stop = λ env cs ts e. keys-update_all _ cs ∙ e;
    of_give = λ env c k w e. keys-give env c k w ∙ e;
  }

pub has_key-add : (k : ℕ) (ks : List ℕ) → has_key k (add_key k ks) ≡ true
unfolding has_key add_key
has_key-add k [] = ground arith
has_key-add k (i ∷ ks) = ground (arith, has_key-add k ks)

pub has_key-add_other : (j k : ℕ) (ks : List ℕ) → k ≢ j → has_key j (add_key k ks) ≡ has_key j ks
unfolding has_key add_key
has_key-add_other j k [] n = ground (arith, n)
has_key-add_other j k (i ∷ ks) n = ground (arith, n, has_key-add_other j k ks n)

pub has_key-drop_other : (j k : ℕ) (ks : List ℕ) → k ≢ j → has_key j (drop_key k ks) ≡ has_key j ks
unfolding has_key drop_key
has_key-drop_other j k [] n = refl
has_key-drop_other j k (i ∷ ks) n = ground (arith, n, has_key-drop_other j k ks n)

-- no connection twice
pub data Distinct : List ℕ → Type 0 where
  no_key : Distinct []
  key : {k : ℕ} {ks : List ℕ} → has_key k ks ≡ false → Distinct ks → Distinct (k ∷ ks)

pub add_key-Distinct : {ks : List ℕ} (k : ℕ) → Distinct ks → Distinct (add_key k ks)
unfolding add_key has_key
add_key-Distinct k no_key = key refl no_key
add_key-Distinct k (key {k = i} {ks} h d) =
    if_cases Distinct (i == k) (λ _. key h d)
      (λ n. key (has_key-add_other i k ks (λ e. ground (arith, n, e)) ∙ h) (add_key-Distinct k d))

pub drop_key-Distinct : {ks : List ℕ} (k : ℕ) → Distinct ks → Distinct (drop_key k ks)
unfolding drop_key
drop_key-Distinct k no_key = no_key
drop_key-Distinct k (key {k = i} {ks} h d) =
    if_cases Distinct (i == k) (λ _. d)
      (λ n. key (has_key-drop_other i k ks (λ e. ground (arith, n, e)) ∙ h) (drop_key-Distinct k d))

pub has_key-drop : {ks : List ℕ} (k : ℕ) → Distinct ks → has_key k (drop_key k ks) ≡ false
unfolding has_key drop_key
has_key-drop k no_key = refl
has_key-drop k (key {k = i} {ks} h d) =
    if_cases (λ l. has_key k l ≡ false) (i == k)
      (λ e. ap (λ j. has_key j ks) (ground (arith, e)) ∙ h)
      (λ n. ground (arith, n, has_key-drop k d))

-- A key that is not there is not found.
pub find-absent :
    {V : Type 0} (k : ℕ) (m : List (ℕ × V)) → has_key k (keys m) ≡ false → find k m ≡ none
unfolding find keys has_key
find-absent k [] h = refl
find-absent k ((j, v) ∷ m) h = ground (arith, h, find-absent k m)

pub drop-absent :
    {V : Type 0} (k : ℕ) (m : List (ℕ × V)) → find k m ≡ none → drop_key k (keys m) ≡ keys m
unfolding find keys drop_key
drop-absent k [] h = refl
drop-absent k ((j, v) ∷ m) h = elim (Bool-cases (j == k)) [
  | inl e ↦ absurd (ground (arith, e, h))
  | inr e ↦ simp (e, drop-absent k m (ground (arith, e, h)))
]
