-- ===== src/Conn/Tcp/Vector.antt =====
-- What is found in the vector of connections, and among the handlers, after each change.
use slimstream.Base.{
  ℕ, ◌≡◌, ◌≢◌, refl, Bool-cases, inl, inr, arith, Option, none, some, List, [], ◌∷◌, ◌++◌, ◌==◌,
  if◌then◌else◌,
}
use slimstream.Proto.Streamer.State.{find, assign, update_all}
use slimstream.Conn.Tcp.State.{Connection, Handler, stop_connection, remove_connection}
use slimstream.Conn.Tcp.Server.{erase_all}

abbrev pub id_of : Handler → ℕ
id_of (stop_connection k) = k
id_of (remove_connection k) = k

-- the handlers for one connection
unfoldable pub about : ℕ → List Handler → List Handler
about k [] = []
about k (h ∷ hs) = let rest = about k hs in if id_of h == k then h ∷ rest else rest

pub about-same :
    (k : ℕ) (h : Handler) (hs : List Handler) → id_of h ≡ k → about k (h ∷ hs) ≡ h ∷ about k hs
unfolding about
about-same k h hs e = ground (arith, e)

pub about-other :
    (k : ℕ) (h : Handler) (hs : List Handler) → id_of h ≢ k → about k (h ∷ hs) ≡ about k hs
unfolding about
about-other k h hs e = ground (arith, e)

pub about-submit :
    (k : ℕ) (hs : List Handler) (h : Handler)
    → id_of h ≡ k
    → about k (hs ++ h ∷ []) ≡ about k hs ++ h ∷ []
unfolding about
about-submit k [] h e = about-same k h [] e
about-submit k (g ∷ hs) h e = elim (Bool-cases (id_of g == k)) [
  | inl t ↦ simp (t, about-submit k hs h e)
  | inr f ↦ simp (f, about-submit k hs h e)
]

pub about-submit_other :
    (k : ℕ) (hs : List Handler) (h : Handler) → id_of h ≢ k → about k (hs ++ h ∷ []) ≡ about k hs
unfolding about
about-submit_other k [] h n = about-other k h [] n
about-submit_other k (g ∷ hs) h n = elim (Bool-cases (id_of g == k)) [
  | inl t ↦ simp (t, about-submit_other k hs h n)
  | inr f ↦ simp (f, about-submit_other k hs h n)
]

abbrev pub map_found : {V : Type 0} → (V → V) → Option V → Option V
map_found f none = none
map_found f (some v) = some (f v)

module _ {V : Type 0} where
  pub find-assign : (k : ℕ) (v : V) (m : List (ℕ × V)) → find k (assign k v m) ≡ some v
  unfolding find assign
  find-assign k v [] = ground arith
  find-assign k v ((j, w) ∷ m) = ground (arith, find-assign k v m)

  pub find-assign_other :
      (j k : ℕ) (v : V) (m : List (ℕ × V)) → k ≢ j → find j (assign k v m) ≡ find j m
  unfolding find assign
  find-assign_other j k v [] n = ground (arith, n)
  find-assign_other j k v ((i, w) ∷ m) n = ground (arith, n, find-assign_other j k v m n)

  pub find-push :
      (k : ℕ) (v : V) (m : List (ℕ × V)) → find k m ≡ none → find k (m ++ (k, v) ∷ []) ≡ some v
  unfolding find
  find-push k v [] e = ground arith
  find-push k v ((j, w) ∷ m) e = ground (arith, e, find-push k v m)

  pub find-push_other :
      (j k : ℕ) (v : V) (m : List (ℕ × V)) → k ≢ j → find j (m ++ (k, v) ∷ []) ≡ find j m
  unfolding find
  find-push_other j k v [] n = ground (arith, n)
  find-push_other j k v ((i, w) ∷ m) n = ground (arith, n, find-push_other j k v m n)

  pub find-update_all :
      (k : ℕ) (f : V → V) (m : List (ℕ × V)) → find k (update_all f m) ≡ map_found f (find k m)
  unfolding find update_all
  find-update_all k f [] = refl
  find-update_all k f ((j, w) ∷ m) = elim (Bool-cases (j == k)) [
    | inl e ↦ simp (e)
    | inr e ↦ simp (e, find-update_all k f m)
  ]

pub find-erase_all : (k : ℕ) (m : List (ℕ × Connection)) → find k (erase_all k m) ≡ none
unfolding find erase_all
find-erase_all k [] = refl
find-erase_all k ((j, w) ∷ m) = ground (arith, find-erase_all k m)

pub find-erase_all_other :
    (j k : ℕ) (m : List (ℕ × Connection)) → k ≢ j → find j (erase_all k m) ≡ find j m
unfolding find erase_all
find-erase_all_other j k [] n = refl
find-erase_all_other j k ((i, w) ∷ m) n = ground (arith, n, find-erase_all_other j k m n)
