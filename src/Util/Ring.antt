-- ===== src/Util/Ring.antt =====
-- src/slim/util/buffer/Ring.hpp, over the storage of HeapBuffer.hpp and Array.hpp.
-- The storage is the list of its elements, so its length is the capacity; a read out of the storage
-- (undefined in the source) is `none`, and a write out of it changes nothing.
pub mod Inv
pub mod Window
pub mod Refine
pub mod Run
use slimstream.Base.{
  ℕ, ◌+◌, ◌-◌, ◌%◌, ◌^◌, Bool, Option, List, ltb, ◌==◌, if◌then◌else◌, length, get_elem?, set,
}

-- `DefaultRingViewPolicy`: the storage, `head` and `size`.
pub record Ring (A : Type 0) : Type 0 where
  pub storage : List A
  pub head : ℕ
  pub size : ℕ

-- `std::size_t` addition
abbrev pub add_size : ℕ → ℕ → ℕ
add_size a b = (a + b) % 2 ^ 64

module _ {A : Type 0} where
  -- a ring over storage that was just allocated
  unfoldable pub make : List A → Ring A
  make storage = record { storage = storage; head = 0; size = 0 }

  abbrev pub get_capacity : Ring A → ℕ
  get_capacity r = length r.storage

  abbrev pub get_size : Ring A → ℕ
  get_size r = r.size

  abbrev pub is_empty : Ring A → Bool
  is_empty r = r.size == 0

  abbrev pub is_full : Ring A → Bool
  is_full r = r.size == get_capacity r

  -- `-` runs only at an index that is not below the capacity
  abbrev pub normalize_index : Ring A → ℕ → ℕ
  normalize_index r i = if ltb i (get_capacity r) then i else i - get_capacity r

  -- `operator[]`
  unfoldable pub at : Ring A → ℕ → Option A
  at r i = get_elem? r.storage (normalize_index r (add_size r.head i))

  unfoldable pub clear : Ring A → Ring A
  clear r = record r { size = 0 }

  unfoldable pub pop : Ring A → Ring A
  pop r =
      if is_empty r
      then r
      else record r { head = normalize_index r (add_size r.head 1); size = r.size - 1 }

  -- the write that ends `push`; it runs only with `size` above 0
  store_last : Ring A → A → Ring A
  store_last r item = record r {
    storage = set r.storage (normalize_index r (add_size r.head r.size - 1)) item;
  }

  unfoldable pub push : Ring A → A → Ring A
  unfolding store_last
  push r item =
      if is_full r
      then (if is_empty r
          then r
          else store_last (record r { head = normalize_index r (add_size r.head 1) }) item)
      else store_last (record r { size = add_size r.size 1 }) item
