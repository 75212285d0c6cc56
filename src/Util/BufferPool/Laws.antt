-- ===== src/Util/BufferPool/Laws.antt =====
-- What lending, releasing and filling a buffer do to the others and to their number.
use mathlib.Core.Path.{subst}
use slimstream.Base.{
  ℕ, zero, suc, ◌≤◌, ◌≡◌, ◌≢◌, refl, ap, ◌∙◌, sym, inl, inr, Bool, true, false, Option, none, some,
  List, [], ◌∷◌, ◌++◌, length, drop, arith, if◌then◌else◌, Bool-cases, length-append, length-drop,
  if_true, if_false,
}
use slimstream.Util.BufferPool.{
  BufferWrapper, BufferPool, make, get_available_size, first_free, set_free, get_data, copy,
  next_index,
}

-- whether a position holds a buffer that is lent
unfoldable pub is_lent : BufferPool → ℕ → Bool
is_lent [] i = false
is_lent (w ∷ pool) zero = if w.free then false else true
is_lent (w ∷ pool) (suc i) = is_lent pool i

-- Every buffer has `n` bytes.
pub data Uniform (n : ℕ) : BufferPool → Type 0 where
  no_buffer : Uniform n []
  buffer :
      {w : BufferWrapper} {pool : BufferPool}
      → length w.buffer ≡ n
      → Uniform n pool
      → Uniform n (w ∷ pool)

-- a buffer that can be lent, with what the pool is once it is
pub data Lending (pool : BufferPool) : Option ℕ → Type 0 where
  exhausted : get_available_size pool ≡ 0 → Lending pool none
  lent :
      {i : ℕ}
      → is_lent pool i ≡ false
      → is_lent (set_free false i pool) i ≡ true
      → get_available_size pool ≡ suc (get_available_size (set_free false i pool))
      → Lending pool (some i)

lend_later :
    (w : BufferWrapper) (pool : BufferPool) (o : Option ℕ)
    → w.free ≡ false
    → Lending pool o
    → Lending (w ∷ pool) (next_index o)
unfolding get_available_size is_lent set_free
lend_later w pool none f (exhausted a) = exhausted (ground arith)
lend_later w pool (some i) f (lent a b c) = lent a b (ground arith)

pub first_free-Lending : (pool : BufferPool) → Lending pool (first_free pool)
unfolding first_free get_available_size is_lent set_free
first_free-Lending [] = exhausted refl
first_free-Lending (w ∷ pool) = elim (Bool-cases w.free) [
  | inl f ↦
      subst (Lending (w ∷ pool)) (sym (if_true w.free (some 0) _ f))
        (lent (ground arith) refl (ground arith))
  | inr f ↦
      subst (Lending (w ∷ pool)) (sym (if_false w.free (some 0) _ f))
        (lend_later w pool (first_free pool) f (first_free-Lending pool))
]

pub available-release :
    (pool : BufferPool) (i : ℕ)
    → is_lent pool i ≡ true
    → get_available_size (set_free true i pool) ≡ suc (get_available_size pool)
unfolding get_available_size is_lent set_free
available-release [] i h = ground arith
available-release (w ∷ pool) zero h = ground arith
available-release (w ∷ pool) (suc i) h = ground (arith, available-release pool i h)

pub is_lent-set_free :
    (b : Bool) (pool : BufferPool) (i j : ℕ)
    → i ≢ j
    → is_lent (set_free b i pool) j ≡ is_lent pool j
unfolding is_lent set_free
is_lent-set_free b [] i j h = refl
is_lent-set_free b (w ∷ pool) zero zero h = absurd (h refl)
is_lent-set_free b (w ∷ pool) zero (suc j) h = refl
is_lent-set_free b (w ∷ pool) (suc i) zero h = refl
is_lent-set_free b (w ∷ pool) (suc i) (suc j) h = is_lent-set_free b pool i j (λ e. h (ap suc e))

pub get_data-set_free :
    (b : Bool) (pool : BufferPool) (i j : ℕ) → get_data (set_free b i pool) j ≡ get_data pool j
unfolding get_data set_free
get_data-set_free b [] i j = refl
get_data-set_free b (w ∷ pool) zero zero = refl
get_data-set_free b (w ∷ pool) zero (suc j) = refl
get_data-set_free b (w ∷ pool) (suc i) zero = refl
get_data-set_free b (w ∷ pool) (suc i) (suc j) = get_data-set_free b pool i j

pub length-set_free :
    (b : Bool) (pool : BufferPool) (i : ℕ) → length (set_free b i pool) ≡ length pool
unfolding set_free
length-set_free b [] i = refl
length-set_free b (w ∷ pool) zero = refl
length-set_free b (w ∷ pool) (suc i) = ap suc (length-set_free b pool i)

pub is_lent-copy :
    (bs : List ℕ) (pool : BufferPool) (i j : ℕ) → is_lent (copy bs i pool) j ≡ is_lent pool j
unfolding is_lent copy
is_lent-copy bs [] i j = refl
is_lent-copy bs (w ∷ pool) zero zero = refl
is_lent-copy bs (w ∷ pool) zero (suc j) = refl
is_lent-copy bs (w ∷ pool) (suc i) zero = refl
is_lent-copy bs (w ∷ pool) (suc i) (suc j) = is_lent-copy bs pool i j

pub available-copy :
    (bs : List ℕ) (pool : BufferPool) (i : ℕ)
    → get_available_size (copy bs i pool) ≡ get_available_size pool
unfolding get_available_size copy
available-copy bs [] i = refl
available-copy bs (w ∷ pool) zero = refl
available-copy bs (w ∷ pool) (suc i) = rw (available-copy bs pool i)

pub length-copy : (bs : List ℕ) (pool : BufferPool) (i : ℕ) → length (copy bs i pool) ≡ length pool
unfolding copy
length-copy bs [] i = refl
length-copy bs (w ∷ pool) zero = refl
length-copy bs (w ∷ pool) (suc i) = ap suc (length-copy bs pool i)

pub get_data-copy_ne :
    (bs : List ℕ) (pool : BufferPool) (i j : ℕ)
    → i ≢ j
    → get_data (copy bs i pool) j ≡ get_data pool j
unfolding get_data copy
get_data-copy_ne bs [] i j h = refl
get_data-copy_ne bs (w ∷ pool) zero zero h = absurd (h refl)
get_data-copy_ne bs (w ∷ pool) zero (suc j) h = refl
get_data-copy_ne bs (w ∷ pool) (suc i) zero h = refl
get_data-copy_ne bs (w ∷ pool) (suc i) (suc j) h = get_data-copy_ne bs pool i j (λ e. h (ap suc e))

pub get_data-copy_self :
    (bs : List ℕ) (pool : BufferPool) (i : ℕ)
    → is_lent pool i ≡ true
    → get_data (copy bs i pool) i ≡ bs ++ drop (length bs) (get_data pool i)
unfolding get_data copy is_lent
get_data-copy_self bs [] i h = ground arith
get_data-copy_self bs (w ∷ pool) zero h = refl
get_data-copy_self bs (w ∷ pool) (suc i) h = get_data-copy_self bs pool i h

-- A filled buffer keeps its size.
pub set_free-Uniform :
    {n : ℕ} {pool : BufferPool} (b : Bool) (i : ℕ) → Uniform n pool → Uniform n (set_free b i pool)
unfolding set_free
set_free-Uniform b i no_buffer = no_buffer
set_free-Uniform b zero (buffer e u) = buffer e u
set_free-Uniform b (suc i) (buffer e u) = buffer e (set_free-Uniform b i u)

pub copy-Uniform :
    {n : ℕ} {pool : BufferPool} (bs : List ℕ) (i : ℕ)
    → length bs ≤ n
    → Uniform n pool
    → Uniform n (copy bs i pool)
unfolding copy
copy-Uniform bs i h no_buffer = no_buffer
copy-Uniform bs zero h (buffer {w} e u) =
    buffer
      (length-append bs (drop (length bs) w.buffer)
        ∙ (let d = length-drop (length bs) w.buffer in omega (arith, d, e, h)))
      u
copy-Uniform bs (suc i) h (buffer e u) = buffer e (copy-Uniform bs i h u)

pub Uniform-size :
    {n : ℕ} {pool : BufferPool} (i : ℕ)
    → is_lent pool i ≡ true
    → Uniform n pool
    → length (get_data pool i) ≡ n
unfolding get_data is_lent
Uniform-size i h no_buffer = ground arith
Uniform-size zero h (buffer e u) = e
Uniform-size (suc i) h (buffer e u) = Uniform-size i h u

pub make-Uniform : (n : ℕ) (memory : List ℕ) → Uniform (length memory) (make n memory)
unfolding make
make-Uniform zero memory = no_buffer
make-Uniform (suc n) memory = buffer refl (make-Uniform n memory)

pub available-make : (n : ℕ) (memory : List ℕ) → get_available_size (make n memory) ≡ n
unfolding make get_available_size
available-make zero memory = refl
available-make (suc n) memory = ap suc (available-make n memory)

pub length-make : (n : ℕ) (memory : List ℕ) → length (make n memory) ≡ n
unfolding make
length-make zero memory = refl
length-make (suc n) memory = ap suc (length-make n memory)
