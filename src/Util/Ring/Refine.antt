-- ===== src/Util/Ring/Refine.antt =====
-- A ring as a window: what it holds, oldest first.
use slimstream.Base.{
  ℕ, zero, suc, ◌+◌, ◌-◌, ◌<◌, ◌≤◌, ◌≡◌, refl, sym, ◌∙◌, ap, arith, List, [], ◌∷◌, ◌++◌, none, some,
  dec_lt, length, get_elem?, length-set, length-append, get_elem?-set_self, get_elem?-set_ne,
  list_ext, get_elem?-total, get_elem?-append_left, get_elem?-append_last,
}
use slimstream.Util.Ring.{Ring, add_size, get_capacity, normalize_index, at, clear, pop, push}
use slimstream.Util.Ring.Inv.{IsValid, pop-IsValid, push-IsValid, capacity-push}
use slimstream.Util.Ring.Window
use native.Mathlib.Nat.{zero-add}

module _ {A : Type 0} where
  -- the `n` items from index `i` on
  gather : Ring A → ℕ → ℕ → List A
  gather r i zero = []
  gather r i (suc n) = elim (at r i) [ none ↦ [] | some x ↦ x ∷ gather r (i + 1) n ]

  -- the items of a ring, oldest first
  unfoldable pub contents : Ring A → List A
  unfolding gather
  contents r = gather r 0 r.size

  -- The list is what a reader of the ring sees.
  pub record Holds (r : Ring A) (xs : List A) : Type 0 where
    pub count : length xs ≡ r.size
    pub items : (i : ℕ) → i < r.size → at r i ≡ get_elem? xs i

  Holds-unique : (r : Ring A) (xs ys : List A) → Holds r xs → Holds r ys → xs ≡ ys
  Holds-unique r xs ys h k =
      list_ext xs ys (h.count ∙ sym k.count)
        (λ i p. sym (h.items i (omega (arith, h.count))) ∙ k.items i (omega (arith, h.count)))

  at-total : (r : Ring A) (i : ℕ) → IsValid r → i < r.size → (x : A) × (at r i ≡ some x)
  unfolding at
  at-total r i v h = get_elem?-total r.storage _ (ground arith)

  gather-items :
      (r : Ring A) (i n : ℕ)
      → IsValid r
      → i + n ≤ r.size
      → (length (gather r i n) ≡ n) × ((j : ℕ) → j < n → at r (i + j) ≡ get_elem? (gather r i n) j)
  unfolding gather
  gather-items r i zero v h = (refl, λ j p. absurd (omega arith))
  gather-items r i (suc n) v h =
      let (x, e) = at-total r i v (omega arith) in
      let (len, rest) = gather-items r (i + 1) n v (omega arith) in
      rw (e, gather)
        (
          ap suc len,
          elim [
            | zero ↦ λ p. let q : i + 0 ≡ i = omega arith in rw q e
            | suc j ↦
                λ p. let q : i + suc j ≡ i + 1 + j = omega arith in rw q (rest j (omega arith))
          ],
        )

  pub contents-Holds : {r : Ring A} → IsValid r → Holds r (contents r)
  unfolding contents
  contents-Holds {r} v =
      let (len, read) = gather-items r 0 r.size v (omega arith) in
      record { count = len; items = λ i p. ap (at r) (sym (zero-add i)) ∙ read i p }

  pub length-contents : {r : Ring A} → IsValid r → length (contents r) ≡ r.size
  length-contents v = (contents-Holds v).count

  contents_of_Holds : {r : Ring A} {xs : List A} → IsValid r → Holds r xs → contents r ≡ xs
  contents_of_Holds {r} {xs} v h = Holds-unique r (contents r) xs (contents-Holds v) h

  size-pop : (r : Ring A) → (pop r).size ≡ r.size - 1
  unfolding pop
  size-pop r = ground arith

  at-pop : (r : Ring A) (i : ℕ) → IsValid r → i + 1 < r.size → at (pop r) i ≡ at r (i + 1)
  unfolding pop at
  at-pop r i v h = ground arith

  pop-Holds : (r : Ring A) (xs : List A) → IsValid r → Holds r xs → Holds (pop r) (Window.tail xs)
  pop-Holds r [] v h = record {
    count = omega (arith, size-pop r, h.count);
    items = λ i p. absurd (omega (arith, size-pop r, h.count));
  }
  pop-Holds r (x ∷ xs) v h = record {
    count = omega (arith, size-pop r, h.count);
    items = λ i p.
        at-pop r i v (omega (arith, size-pop r))
        ∙ h.items (i + 1) (omega (arith, size-pop r))
        ∙ (let e : i + 1 ≡ suc i = omega arith in rw e refl);
  }

  -- A pop forgets the oldest item; of an empty ring it does nothing.
  pub contents-pop : (r : Ring A) → IsValid r → contents (pop r) ≡ Window.tail (contents r)
  contents-pop r v =
      contents_of_Holds (pop-IsValid v) (pop-Holds r (contents r) v (contents-Holds v))

  pub contents-clear : (r : Ring A) → contents (clear r) ≡ []
  unfolding contents clear
  contents-clear r = refl

  -- The two ways a push writes: over the oldest item, or past the newest.
  at-push_self :
      (r : Ring A) (x : A) (i : ℕ)
      → IsValid r
      → 0 < get_capacity r
      → i + 1 ≡ (push r x).size
      → at (push r x) i ≡ some x
  unfolding push at
  at-push_self r x i v c e = ground (
    arith,
    get_elem?-set_self r.storage
        (normalize_index r (add_size (normalize_index r (add_size r.head 1)) r.size - 1)) x,
    get_elem?-set_self r.storage (normalize_index r (add_size r.head (add_size r.size 1) - 1)) x,
    capacity-push r x,
  )

  at-push_full :
      (r : Ring A) (x : A) (i : ℕ)
      → IsValid r
      → r.size ≡ get_capacity r
      → i + 1 < r.size
      → at (push r x) i ≡ at r (i + 1)
  unfolding push at
  at-push_full r x i v e h = ground (
    arith,
    get_elem?-set_ne r.storage
        {i = normalize_index r (add_size (normalize_index r (add_size r.head 1)) r.size - 1)}
        {j = normalize_index r (add_size (normalize_index r (add_size r.head 1)) i)} x
        (ground arith),
    length-set r.storage
        (normalize_index r (add_size (normalize_index r (add_size r.head 1)) r.size - 1)) x,
  )

  at-push_room :
      (r : Ring A) (x : A) (i : ℕ)
      → IsValid r
      → r.size < get_capacity r
      → i < r.size
      → at (push r x) i ≡ at r i
  unfolding push at
  at-push_room r x i v e h = ground (
    arith,
    get_elem?-set_ne r.storage {i = normalize_index r (add_size r.head (add_size r.size 1) - 1)}
        {j = normalize_index r (add_size r.head i)} x (ground arith),
    length-set r.storage (normalize_index r (add_size r.head (add_size r.size 1) - 1)) x,
  )

  size-push_full : (r : Ring A) (x : A) → r.size ≡ get_capacity r → (push r x).size ≡ r.size
  unfolding push
  size-push_full r x e = ground arith

  size-push_room :
      (r : Ring A) (x : A) → IsValid r → r.size < get_capacity r → (push r x).size ≡ r.size + 1
  unfolding push
  size-push_room r x v h = ground arith

  push_room-Holds :
      (r : Ring A) (x : A) (xs : List A)
      → IsValid r
      → r.size < get_capacity r
      → Holds r xs
      → Holds (push r x) (xs ++ x ∷ [])
  push_room-Holds r x xs v e h = record {
    count = omega (arith, size-push_room r x v e, length-append xs (x ∷ []), h.count);
    items = λ i p. elim (dec_lt i r.size) [
      | yes q ↦
          at-push_room r x i v e q
          ∙ h.items i q
          ∙ sym (get_elem?-append_left xs (x ∷ []) i (omega (arith, h.count)))
      | no q ↦
          at-push_self r x i v (omega arith) (omega (arith, size-push_room r x v e))
          ∙ sym (get_elem?-append_last xs x i (omega (arith, h.count, size-push_room r x v e)))
    ];
  }

  push_full-Holds :
      (r : Ring A) (x y : A) (xs : List A)
      → IsValid r
      → r.size ≡ get_capacity r
      → Holds r (y ∷ xs)
      → Holds (push r x) (xs ++ x ∷ [])
  push_full-Holds r x y xs v e h = record {
    count = omega (arith, size-push_full r x e, length-append xs (x ∷ []), h.count);
    items = λ i p. elim (dec_lt (i + 1) r.size) [
      | yes q ↦
          at-push_full r x i v e q
          ∙ h.items (i + 1) q
          ∙ (let k : i + 1 ≡ suc i = omega arith in
              rw k (sym (get_elem?-append_left xs (x ∷ []) i (omega (arith, h.count)))))
      | no q ↦
          at-push_self r x i v (omega (arith, h.count)) (omega (arith, size-push_full r x e))
          ∙ sym (get_elem?-append_last xs x i (omega (arith, h.count, size-push_full r x e)))
    ];
  }

  push_none : (r : Ring A) (x : A) → get_capacity r ≡ 0 → IsValid r → push r x ≡ r
  unfolding push
  push_none r x h v = ground arith

  push-Holds :
      (r : Ring A) (x : A) (xs : List A)
      → IsValid r
      → Holds r xs
      → Holds (push r x) (Window.push (get_capacity r) xs x)
  push-Holds r x [] v h = elim (dec_lt r.size (get_capacity r)) [
    | yes q ↦
        rw (Window.push_room (get_capacity r) [] x (omega (arith, h.count)))
          (push_room-Holds r x [] v q h)
    | no q ↦
        rw
          (
            Window.push_none (get_capacity r) [] x (omega (arith, h.count)),
            push_none r x (omega (arith, h.count)) v,
          )
          h
  ]
  push-Holds r x (y ∷ xs) v h = elim (dec_lt r.size (get_capacity r)) [
    | yes q ↦
        rw (Window.push_room (get_capacity r) (y ∷ xs) x (omega (arith, h.count)))
          (push_room-Holds r x (y ∷ xs) v q h)
    | no q ↦
        rw
          (Window.push_full (get_capacity r) (y ∷ xs) x (omega (arith, h.count))
            (omega (arith, h.count)))
          (push_full-Holds r x y xs v (omega arith) h)
  ]

  -- A push is a push of the window: at full capacity it forgets the oldest item.
  pub contents-push :
      (r : Ring A) (x : A)
      → IsValid r
      → contents (push r x) ≡ Window.push (get_capacity r) (contents r) x
  contents-push r x v =
      contents_of_Holds (push-IsValid x v) (push-Holds r x (contents r) v (contents-Holds v))

  -- Reading the ring is reading the window.
  pub at-contents :
      (r : Ring A) (i : ℕ) → IsValid r → i < r.size → at r i ≡ get_elem? (contents r) i
  at-contents r i v h = (contents-Holds v).items i h
