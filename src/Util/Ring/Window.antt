-- ===== src/Util/Ring/Window.antt =====
-- What a ring promises: the last items pushed, oldest first, and no more than its capacity.
use slimstream.Base.{
  ℕ, ◌+◌, ◌<◌, ◌≤◌, ◌≡◌, min, arith, length-append, List, [], ◌∷◌, ◌++◌, ◌==◌, if◌then◌else◌,
  length,
}

module _ {A : Type 0} where
  abbrev pub tail : List A → List A
  tail [] = []
  tail (x ∷ xs) = xs

  -- A push onto a full window forgets the oldest item.
  unfoldable pub push : ℕ → List A → A → List A
  push cap xs x =
      if cap == 0 then xs else (if length xs == cap then tail xs ++ x ∷ [] else xs ++ x ∷ [])

  pub push_none : (cap : ℕ) (xs : List A) (x : A) → cap ≡ 0 → push cap xs x ≡ xs
  unfolding push
  push_none cap xs x h = ground arith

  pub push_room : (cap : ℕ) (xs : List A) (x : A) → length xs < cap → push cap xs x ≡ xs ++ x ∷ []
  unfolding push
  push_room cap xs x h = ground arith

  pub push_full :
      (cap : ℕ) (xs : List A) (x : A)
      → 0 < cap
      → length xs ≡ cap
      → push cap xs x ≡ tail xs ++ x ∷ []
  unfolding push
  push_full cap xs x c h = ground arith

  pub length-push :
      (cap : ℕ) (xs : List A) (x : A)
      → length xs ≤ cap
      → length (push cap xs x) ≡ min cap (length xs + 1)
  unfolding push
  length-push cap [] x h = ground arith
  length-push cap (y ∷ xs) x h = ground (arith, length-append xs (x ∷ []))
