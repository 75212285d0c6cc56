-- ===== src/Proto/Streamer/Deliver/InStep.antt =====
-- The sequence numbers of the sessions against the number of streamed chunks.
use slimstream.Base.{
  ℕ, ◌+◌, ◌≤◌, ◌≡◌, refl, sym, ap, ◌∙◌, inl, inr, Bool-cases, arith, Bool, true, false, ◌&&◌, List,
  [], ◌∷◌, leb, if◌then◌else◌, if_true, if_false,
}
use slimstream.Proto.Streamer.Maps.{keys}
use slimstream.Proto.Streamer.Deliver.{visit, deliver_all}

-- The number of each session is that of the streamed chunks, or one more.
pub data InStep (total : ℕ) : List (ℕ × ℕ) → Type 0 where
  no_entry : InStep total []
  entry :
      {k n : ℕ} {es : List (ℕ × ℕ)}
      → total ≤ n
      → n ≤ total + 1
      → InStep total es
      → InStep total ((k, n) ∷ es)

pub data AllAt (total : ℕ) : List (ℕ × ℕ) → Type 0 where
  no_entry : AllAt total []
  entry : {k n : ℕ} {es : List (ℕ × ℕ)} → n ≡ total → AllAt total es → AllAt total ((k, n) ∷ es)

pub AllAt-InStep : {total : ℕ} {es : List (ℕ × ℕ)} → AllAt total es → InStep total es
AllAt-InStep AllAt.no_entry = InStep.no_entry
AllAt-InStep (AllAt.entry e a) = InStep.entry (omega arith) (omega arith) (AllAt-InStep a)

-- the sessions that have not consumed the next chunk yet, in order
unfoldable pub behind : ℕ → List (ℕ × ℕ) → List ℕ
behind total [] = []
behind total ((k, n) ∷ es) = let rest = behind total es in if leb n total then k ∷ rest else rest

-- the sessions that answered that they did not consume it
unfoldable pub refusals : List (ℕ × Bool) → List ℕ
refusals [] = []
refusals ((k, b) ∷ rs) = let rest = refusals rs in if b then rest else k ∷ rest

abbrev pub is_empty : List ℕ → Bool
is_empty [] = true
is_empty (k ∷ ks) = false

none_behind :
    {total : ℕ} {es : List (ℕ × ℕ)} → InStep total es → behind total es ≡ [] → AllAt (total + 1) es
unfolding behind
none_behind InStep.no_entry e = AllAt.no_entry
none_behind {total = total} (InStep.entry {n = n} l u i) e = elim (Bool-cases (leb n total)) [
  | inl h ↦ absurd (nonempty (sym (if_true (leb n total) _ _ h) ∙ e))
  | inr h ↦
      AllAt.entry (ground (arith, h, l, u)) (none_behind i (sym (if_false (leb n total) _ _ h) ∙ e))
]
  where
    nonempty : {k : ℕ} {ks : List ℕ} → k ∷ ks ≡ [] → ⊥
    nonempty e = cc

is_empty-nil : (ks : List ℕ) → is_empty ks ≡ true → ks ≡ []
is_empty-nil [] e = refl
is_empty-nil (k ∷ ks) e = absurd cc

module _ {W : Type 0} (give : ℕ → W → Bool × W) where
  -- The chunk is offered to each of the sessions once, in this order: their answers, and the new world.
  unfoldable pub offers : List ℕ → W → List (ℕ × Bool) × W
  offers [] w = ([], w)
  offers (k ∷ ks) w = let (b, w') = give k w in let (rs, w'') = offers ks w' in ((k, b) ∷ rs, w'')

module _ {W : Type 0} (give : ℕ → W → Bool × W) (total : ℕ) (P : W → Type 0)
    (keep : (k : ℕ) (w : W) → P w → P (give k w).1) where
  -- What holds of the whole loop, from the entries `es` and the world `w` on, when `a` are the answers
  -- and the world of offering the chunk to the sessions behind.
  pub record Offered (es : List (ℕ × ℕ)) (a : List (ℕ × Bool) × W) (r : Bool × List (ℕ × ℕ) × W)
      : Type 0 where
    pub in_step : InStep total r.1
    pub still_behind : behind total r.1 ≡ refusals a.0
    pub report : r.0 ≡ is_empty (refusals a.0)
    pub world : r.2 ≡ a.1
    pub same_keys : keys r.1 ≡ keys es
    pub kept : P r.2

  pub all_at :
      {es : List (ℕ × ℕ)} {a : List (ℕ × Bool) × W} {r : Bool × List (ℕ × ℕ) × W}
      → Offered es a r
      → r.0 ≡ true
      → AllAt (total + 1) r.1
  all_at d e = none_behind d.in_step (d.still_behind ∙ is_empty-nil _ (sym d.report ∙ e))

  abbrev pub Delivered : List (ℕ × ℕ) → W → Bool × List (ℕ × ℕ) × W → Type 0
  Delivered es w r = Offered es (offers give (behind total es) w) r

  -- an entry that is not behind
  passed :
      {k n : ℕ} {es : List (ℕ × ℕ)} {a : List (ℕ × Bool) × W} (r : Bool × List (ℕ × ℕ) × W)
      → total ≤ n
      → n ≤ total + 1
      → leb n total ≡ false
      → Offered es a r
      → Offered ((k, n) ∷ es) a (true && r.0, (k, n) ∷ r.1, r.2)
  unfolding keys behind
  passed {k = k} r l u h d = record {
    in_step = InStep.entry l u d.in_step;
    still_behind = if_false _ _ _ h ∙ d.still_behind;
    report = d.report;
    world = d.world;
    same_keys = ap (λ ks. k ∷ ks) d.same_keys;
    kept = d.kept;
  }

  -- an entry that is behind, with the answer `b` of its session
  asked :
      {k n : ℕ} {es : List (ℕ × ℕ)} {a : List (ℕ × Bool) × W} (b : Bool)
      (r : Bool × List (ℕ × ℕ) × W)
      → total ≤ n
      → n ≤ total
      → Offered es a r
      → Offered
          ((k, n) ∷ es)
          ((k, b) ∷ a.0, a.1)
          (b && r.0, (k, (if b then n + 1 else n)) ∷ r.1, r.2)
  unfolding keys behind refusals
  asked {k = k} {n = n} true r l u d = record {
    in_step = InStep.entry (omega arith) (omega arith) d.in_step;
    still_behind = if_false (leb (n + 1) total) _ _ (ground (arith, l)) ∙ d.still_behind;
    report = d.report;
    world = d.world;
    same_keys = ap (λ ks. k ∷ ks) d.same_keys;
    kept = d.kept;
  }
  asked {k = k} {n = n} false r l u d = record {
    in_step = InStep.entry l (omega arith) d.in_step;
    still_behind = if_true (leb n total) _ _ (ground (arith, u)) ∙ ap (λ ks. k ∷ ks) d.still_behind;
    report = refl;
    world = d.world;
    same_keys = ap (λ ks. k ∷ ks) d.same_keys;
    kept = d.kept;
  }

  -- Let `give` keep a property of the world, which holds at first, and let the sessions be in step with
  -- the streamed chunks. Then the loop offers the chunk once to each session that is behind, in order,
  -- and to no other, and the world is what these offers leave. The sessions that are behind afterwards
  -- are exactly those that answered that they did not consume it, and the loop answers `true` exactly
  -- if there is none. The sessions are in step, none is gained, lost or moved, and the property holds.
  pub deliver_all-Delivered :
      (es : List (ℕ × ℕ)) (w : W)
      → InStep total es
      → P w
      → Delivered es w (deliver_all give total es w)
  unfolding deliver_all visit behind offers refusals
  deliver_all-Delivered [] w i p = record {
    in_step = InStep.no_entry;
    still_behind = refl;
    report = refl;
    world = refl;
    same_keys = refl;
    kept = p;
  }
  deliver_all-Delivered ((k, n) ∷ es) w (InStep.entry l u i) p =
      by_test (λ w' p'. deliver_all-Delivered es w' i p') (leb n total) refl
    where
      -- the rest of the loop, after the visit that came to `v`
      joined : Bool × ℕ × W → Bool × List (ℕ × ℕ) × W
      joined v = let r = deliver_all give total es v.2 in (v.0 && r.0, (k, v.1) ∷ r.1, r.2)

      asking : Bool × ℕ × W
      asking = let g = give k w in (g.0, (if g.0 then n + 1 else n), g.1)

      by_test :
          ((w' : W) → P w' → Delivered es w' (deliver_all give total es w'))
          → (b : Bool) → leb n total ≡ b
          → Offered
              ((k, n) ∷ es)
              (offers give (if b then k ∷ behind total es else behind total es) w)
              (joined (if b then asking else (true, n, w)))
      by_test rest true h =
          asked (give k w).0 _ l (ground (arith, h)) (rest (give k w).1 (keep k w p))
      by_test rest false h = passed _ l u h (rest w p)
