-- ===== src/Proto/CommandSession/Request/Buffer.antt =====
-- The bytes that a request puts into the ring and takes out of it.
use slimstream.Base.{ℕ, zero, suc, ◌-◌, ◌≡◌, refl, ap, ◌∙◌, [], ◌∷◌, arith, drop}
use slimstream.Util.Ring
use slimstream.Util.Ring.{Ring, get_capacity, pop}
use slimstream.Util.Ring.Inv.{IsValid, pop-IsValid, push-IsValid, capacity-push}
use slimstream.Util.Ring.Refine.{contents, contents-pop}
use slimstream.Util.Ring.Window
use slimstream.Proto.Wire.{Bytes}
use slimstream.Proto.CommandSession.Request.{push_all, pop_all}

size-pop : (r : Ring ℕ) → (pop r).size ≡ r.size - 1
unfolding pop
size-pop r = ground arith

pub capacity-pop : (r : Ring ℕ) → get_capacity (pop r) ≡ get_capacity r
unfolding pop
capacity-pop r = ground arith

pub size-pop_all : (n : ℕ) (r : Ring ℕ) → (pop_all n r).size ≡ r.size - n
unfolding pop_all
size-pop_all zero r = omega arith
size-pop_all (suc n) r = omega (arith, size-pop_all n (pop r), size-pop r)

pub pop_all-IsValid : (n : ℕ) (r : Ring ℕ) → IsValid r → IsValid (pop_all n r)
unfolding pop_all
pop_all-IsValid zero r v = v
pop_all-IsValid (suc n) r v = pop_all-IsValid n (pop r) (pop-IsValid v)

pub capacity-pop_all : (n : ℕ) (r : Ring ℕ) → get_capacity (pop_all n r) ≡ get_capacity r
unfolding pop_all
capacity-pop_all zero r = refl
capacity-pop_all (suc n) r = capacity-pop_all n (pop r) ∙ capacity-pop r

drop-tail : (n : ℕ) (xs : Bytes) → drop n (Window.tail xs) ≡ drop (suc n) xs
drop-tail zero [] = refl
drop-tail (suc n) [] = refl
drop-tail n (x ∷ xs) = refl

-- Popping `n` bytes drops the `n` oldest.
pub contents-pop_all :
    (n : ℕ) (r : Ring ℕ) → IsValid r → contents (pop_all n r) ≡ drop n (contents r)
unfolding pop_all
contents-pop_all zero r v = refl
contents-pop_all (suc n) r v =
    contents-pop_all n (pop r) (pop-IsValid v)
    ∙ ap (drop n) (contents-pop r v)
    ∙ drop-tail n (contents r)

pub push_all-IsValid : (bs : Bytes) (r : Ring ℕ) → IsValid r → IsValid (push_all r bs)
unfolding push_all
push_all-IsValid [] r v = v
push_all-IsValid (b ∷ bs) r v = push_all-IsValid bs (Ring.push r b) (push-IsValid b v)

pub capacity-push_all : (bs : Bytes) (r : Ring ℕ) → get_capacity (push_all r bs) ≡ get_capacity r
unfolding push_all
capacity-push_all [] r = refl
capacity-push_all (b ∷ bs) r = capacity-push_all bs (Ring.push r b) ∙ capacity-push r b
