-- ===== src/Proto/Client/Inbound/Laws.antt =====
-- What the constructor of an inbound command reads and returns.
use slimstream.Base.{
  ℕ, zero, suc, ◌+◌, ◌<◌, ◌≤◌, ◌≡◌, refl, sym, ap, ◌∙◌, true, false, arith, length, get_or,
  get_elem?-take, get_elem?-get_or, list_ext, length-take, some, take, ltb, Bool-cases, inl, inr,
}
use slimstream.Exception.{
  Outcome, Exception, done, thrown, too_small_for_fixed_part, too_small, too_big, missing_label,
}
use native.Mathlib.Nat.{zero-add}
use slimstream.Util.Ring.Inv.{IsValid}
use slimstream.Util.Ring.Refine.{contents, at-contents, length-contents}
use slimstream.Util.Ring.{Ring, get_size, get_capacity}
use slimstream.Proto.Wire.{Bytes, load32, htonl, same_bytes}
use slimstream.Proto.Client.Inbound.{
  byte_at, read, announced, is_enough_data, copied_size, make, message_size,
}

pub length-read : (r : Ring ℕ) (i n : ℕ) → length (read r i n) ≡ n
unfolding read
length-read r i zero = refl
length-read r i (suc n) = ap suc (length-read r (i + 1) n)

pub get_or-read : (r : Ring ℕ) (i n k : ℕ) → k < n → get_or (read r i n) k 0 ≡ byte_at r (i + k)
unfolding read
get_or-read r i zero k h = absurd (omega arith)
get_or-read r i (suc n) zero h = ap (byte_at r) (omega arith)
get_or-read r i (suc n) (suc k) h =
    get_or-read r (i + 1) n k (omega arith) ∙ ap (byte_at r) (omega arith)

get_or-read_again :
    (r : Ring ℕ) (n k i j : ℕ)
    → i ≡ k + j
    → i < n
    → j < 4
    → get_or (read r 0 n) i 0 ≡ get_or (read r k 4) j 0
get_or-read_again r n k i j e h l =
    get_or-read r 0 n i h ∙ ap (byte_at r) (omega arith) ∙ sym (get_or-read r k 4 j l)

-- A field of four bytes is the same, read with the message or by itself.
pub load32-read : (r : Ring ℕ) (n k : ℕ) → k + 4 ≤ n → load32 (read r 0 n) k ≡ load32 (read r k 4) 0
unfolding load32
load32-read r n k h = cc (
  get_or-read_again r n k k 0 (omega arith) (omega arith) (omega arith),
  get_or-read_again r n k (k + 1) 1 (omega arith) (omega arith) (omega arith),
  get_or-read_again r n k (k + 2) 2 (omega arith) (omega arith) (omega arith),
  get_or-read_again r n k (k + 3) 3 (omega arith) (omega arith) (omega arith),
)

-- A whole message is in the ring, and every byte that is copied of it is.
pub record Fits (fixed : ℕ) (r : Ring ℕ) : Type 0 where
  pub fixed_part : fixed ≤ get_size r
  pub header : 8 ≤ get_size r
  pub message : announced r + 8 ≤ get_size r
  pub copied : copied_size fixed (announced r + 8) ≤ get_size r

enough-le :
    (r : Ring ℕ) → is_enough_data r ≡ true → (8 ≤ get_size r) × (announced r + 8 ≤ get_size r)
unfolding is_enough_data
enough-le r h = ground arith

-- why a message is refused, in the order of the tests
pub data Refuses (fixed : ℕ) (label : Bytes) (r : Ring ℕ) : Exception → Type 0 where
  no_fixed_part : get_size r < fixed → Refuses fixed label r too_small_for_fixed_part
  incomplete : fixed ≤ get_size r → is_enough_data r ≡ false → Refuses fixed label r too_small
  no_room :
      is_enough_data r ≡ true → get_capacity r < announced r + 8 → Refuses fixed label r too_big
  other_label :
      is_enough_data r ≡ true
      → same_bytes label (take 4 (read r 0 (copied_size fixed (announced r + 8)))) ≡ false
      → Refuses fixed label r missing_label

pub data Deserialized (fixed : ℕ) (label : Bytes) (r : Ring ℕ) : Outcome Bytes → Type 0 where
  message :
      (m : Bytes)
      → Fits fixed r
      → message_size m ≡ announced r + 8
      → m ≡ read r 0 (copied_size fixed (announced r + 8))
      → same_bytes label (take 4 m) ≡ true
      → Deserialized fixed label r (done m)
  rejected : (e : Exception) → Refuses fixed label r e → Deserialized fixed label r (thrown e)

message_size-read : (r : Ring ℕ) (n : ℕ) → 8 ≤ n → message_size (read r 0 n) ≡ announced r + 8
unfolding message_size announced
message_size-read r n h = ap (λ k. htonl k + 8) (load32-read r n 4 h)

copied-Fits : (fixed : ℕ) (r : Ring ℕ) → fixed ≤ get_size r → is_enough_data r ≡ true → Fits fixed r
copied-Fits fixed r f h = ground (arith, enough-le r h)

-- For a structure of 8 bytes or more, the constructor copies a message with the label asked for, which
-- lies in the ring with all its bytes, and announces the size that is copied; or it throws, and the
-- exception tells which of the four tests failed.
pub make-Deserialized :
    (fixed : ℕ) (label : Bytes) (r : Ring ℕ)
    → 8 ≤ fixed
    → Deserialized fixed label r (make fixed label r)
unfolding make
make-Deserialized fixed label r h = elim (Bool-cases (ltb (get_size r) fixed)) [
  | inl small ↦ rw small (rejected _ (no_fixed_part (ground (arith, small))))
  | inr large ↦ elim (Bool-cases (is_enough_data r)) [
    | inr little ↦ rw (large, little) (rejected _ (incomplete (ground (arith, large)) little))
    | inl enough ↦ elim (Bool-cases (ltb (get_capacity r) (announced r + 8))) [
      | inl big ↦ rw (large, enough, big) (rejected _ (no_room enough (ground (arith, big))))
      | inr fits ↦
          elim (Bool-cases
            (same_bytes label (take 4 (read r 0 (copied_size fixed (announced r + 8)))))) [
              | inr other ↦ rw (large, enough, fits, other) (rejected _ (other_label enough other))
              | inl same ↦
                  rw (large, enough, fits, same)
                    (message _ (copied-Fits fixed r (ground arith) enough)
                      (message_size-read r _ (ground arith)) refl same)
            ]
    ]
  ]
]

-- Over a valid ring the reads are reads of what it holds.
module _ {r : Ring ℕ} (v : IsValid r) where
  pub byte_at-contents : (i : ℕ) → i < get_size r → byte_at r i ≡ get_or (contents r) i 0
  unfolding byte_at
  byte_at-contents i h = rw (
    at-contents r i v h,
    get_elem?-get_or (contents r) i 0 (omega (arith, length-contents v)),
    byte_at,
  )

  pub read-contents : (n : ℕ) → n ≤ get_size r → read r 0 n ≡ take n (contents r)
  read-contents n h =
      list_ext (read r 0 n) (take n (contents r))
        (omega (arith, length-read r 0 n, length-take n (contents r), length-contents v))
        λ k p.
          get_elem?-get_or (read r 0 n) k 0 p
          ∙ ap some (
              get_or-read r 0 n k (omega (arith, length-read r 0 n))
              ∙ ap (byte_at r) (zero-add k)
              ∙ byte_at-contents k (omega (arith, length-read r 0 n)))
          ∙ sym (
              get_elem?-get_or (contents r) k 0
                (omega (arith, length-read r 0 n, length-contents v)))
          ∙ sym (get_elem?-take n (contents r) k (omega (arith, length-read r 0 n)))

  pub announced-contents : 8 ≤ get_size r → announced r ≡ htonl (load32 (contents r) 4)
  unfolding announced load32
  announced-contents h = cc (
    get_or-read r 4 4 0 (omega arith),
    byte_at-contents 4 (omega arith),
    get_or-read r 4 4 1 (omega arith),
    byte_at-contents 5 (omega arith),
    get_or-read r 4 4 2 (omega arith),
    byte_at-contents 6 (omega arith),
    get_or-read r 4 4 3 (omega arith),
    byte_at-contents 7 (omega arith),
  )
