-- ===== src/Util/BufferPool.antt =====
-- src/slim/util/buffer/BufferPool.hpp and HeapBuffer.hpp: buffers that are lent and come back. A pooled
-- buffer is the position of the buffer that it wraps; its destructor is `release`.
pub mod Laws
use slimstream.Base.{
  ℕ, zero, suc, ◌+◌, Bool, true, false, Option, none, some, List, [], ◌∷◌, ◌++◌, length, drop,
  replicate, if◌then◌else◌,
}

-- a wrapper with its heap buffer's memory
pub record BufferWrapper : Type 0 where
  pub buffer : List ℕ
  pub free : Bool

abbrev pub BufferPool : Type 0
BufferPool = List BufferWrapper

-- `memory` is what a new buffer holds; it is not initialised.
unfoldable pub make : ℕ → List ℕ → BufferPool
make pool_size memory = replicate pool_size (record { buffer = memory; free = true })

abbrev pub get_size : BufferPool → ℕ
get_size pool = length pool

unfoldable pub get_available_size : BufferPool → ℕ
get_available_size [] = 0
get_available_size (w ∷ pool) =
    let rest = get_available_size pool in if w.free then suc rest else rest

abbrev pub next_index : Option ℕ → Option ℕ
next_index none = none
next_index (some i) = some (suc i)

-- the first wrapper that is free
unfoldable pub first_free : BufferPool → Option ℕ
first_free [] = none
first_free (w ∷ pool) = let rest = next_index (first_free pool) in if w.free then some 0 else rest

unfoldable pub set_free : Bool → ℕ → BufferPool → BufferPool
set_free b i [] = []
set_free b zero (w ∷ pool) = record w { free = b } ∷ pool
set_free b (suc i) (w ∷ pool) = w ∷ set_free b i pool

abbrev pub lend : Option ℕ → BufferPool → BufferPool
lend none pool = pool
lend (some i) pool = set_free false i pool

-- The result is `none` for the buffer without memory that stands for a pool in use.
abbrev pub allocate : BufferPool → Option ℕ × BufferPool
allocate pool = (first_free pool, lend (first_free pool) pool)

abbrev pub release : ℕ → BufferPool → BufferPool
release i pool = set_free true i pool

-- `getData` and `getSize` of a pooled buffer
unfoldable pub get_data : BufferPool → ℕ → List ℕ
get_data [] i = []
get_data (w ∷ pool) zero = w.buffer
get_data (w ∷ pool) (suc i) = get_data pool i

abbrev pub get_buffer_size : BufferPool → ℕ → ℕ
get_buffer_size pool i = length (get_data pool i)

-- `std::memcpy` to the start of a buffer
unfoldable pub copy : List ℕ → ℕ → BufferPool → BufferPool
copy bytes i [] = []
copy bytes zero (w ∷ pool) = record w { buffer = bytes ++ drop (length bytes) w.buffer } ∷ pool
copy bytes (suc i) (w ∷ pool) = w ∷ copy bytes i pool
