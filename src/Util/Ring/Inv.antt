-- ===== src/Util/Ring/Inv.antt =====
-- The representation invariant of a ring, and its operations.
use slimstream.Base.{ℕ, ◌-◌, ◌^◌, ◌≤◌, ◌<◌, ◌≡◌, ◌⊎◌, arith, List, length, length-set}
use slimstream.Util.Ring.{Ring, add_size, get_capacity, normalize_index, make, clear, pop, push}

-- No object is larger than half of the address space.
abbrev pub max_capacity : ℕ
max_capacity = 2 ^ 63

pub record IsValid {A : Type 0} (r : Ring A) : Type 0 where
  pub small : get_capacity r ≤ max_capacity
  pub size_in : r.size ≤ get_capacity r
  pub head_in : (r.head < get_capacity r) ⊎ ((r.head ≡ 0) × (get_capacity r ≡ 0))

module _ {A : Type 0} where
  pub make-IsValid : (storage : List A) → length storage ≤ max_capacity → IsValid (make storage)
  unfolding make
  make-IsValid storage h = ground arith

  pub clear-IsValid : {r : Ring A} → IsValid r → IsValid (clear r)
  unfolding clear
  clear-IsValid v = ground arith

  pub pop-IsValid : {r : Ring A} → IsValid r → IsValid (pop r)
  unfolding pop
  pop-IsValid v = ground arith

  pub capacity-push : (r : Ring A) (x : A) → get_capacity (push r x) ≡ get_capacity r
  unfolding push
  capacity-push r x = ground (
    arith,
    length-set r.storage
        (normalize_index r (add_size (normalize_index r (add_size r.head 1)) r.size - 1)) x,
    length-set r.storage (normalize_index r (add_size r.head (add_size r.size 1) - 1)) x,
  )

  pub push-IsValid : {r : Ring A} (x : A) → IsValid r → IsValid (push r x)
  unfolding push
  push-IsValid {r} x v = ground (
    arith,
    length-set r.storage
        (normalize_index r (add_size (normalize_index r (add_size r.head 1)) r.size - 1)) x,
    length-set r.storage (normalize_index r (add_size r.head (add_size r.size 1) - 1)) x,
  )
