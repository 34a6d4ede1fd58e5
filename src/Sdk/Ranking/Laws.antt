-- ===== src/Sdk/Ranking/Laws.antt =====
-- The source that last succeeded goes first.
use relkit.Prelude.{
  ℕ, suc, ◌≡◌, refl, sym, ap, Bool, true, false, List, [], ◌∷◌, map, Str, arith, In, here, there,
  In-cons, ℤ, inl, inr, Bool-cases, subst, false≢true, ◌∙◌,
}
use relkit.Prelude.Sorting.{sort_by, sort_by-In, In-sort_by, sort_by-IsSorted, IsStrict, IsSorted}
use relkit.Sdk.State.{UpdateState}
use relkit.Sdk.Ranking.{
  Ranked, is_last, ranks_before, indexed, rank_by_learning, by_failures, by_speed, by_last, speed,
  failures_of,
}

failures_asym : (f i g j : ℕ) → by_failures f i g j ≡ true → by_failures g j f i ≡ false
unfolding by_failures
failures_asym f i g j h = ground arith

failures_trans :
    (f i g j h k : ℕ)
    → by_failures g j f i ≡ false
    → by_failures h k g j ≡ false
    → by_failures h k f i ≡ false
unfolding by_failures
failures_trans f i g j h k p q = ground arith

speed_asym :
    (a b : ℤ) (t u : Bool) → (t ≡ true → u ≡ false) → by_speed a b t ≡ true → by_speed b a u ≡ false
unfolding by_speed
speed_asym a b t u tie h = ground arith

speed_trans :
    (a b c : ℤ) (t u v : Bool)
    → (t ≡ false → u ≡ false → v ≡ false)
    → by_speed b a t ≡ false
    → by_speed c b u ≡ false
    → by_speed c a v ≡ false
unfolding by_speed
speed_trans a b c t u v tie p q = ground arith

last_asym :
    (a b : Bool) (t u : Bool)
    → (t ≡ true → u ≡ false)
    → by_last a b t ≡ true
    → by_last b a u ≡ false
unfolding by_last
last_asym a b t u tie h = ground arith

last_trans :
    (a b c : Bool) (t u v : Bool)
    → (t ≡ false → u ≡ false → v ≡ false)
    → by_last b a t ≡ false
    → by_last c b u ≡ false
    → by_last c a v ≡ false
unfolding by_last
last_trans a b c t u v tie p q = ground arith

module _ {ℓ} {A : Type ℓ} (s : UpdateState) where
  pub ranks_before-IsStrict : IsStrict (ranks_before {A = A} s)
  unfolding ranks_before
  ranks_before-IsStrict = record {
    asym = λ a b h.
        last_asym (is_last s a.key) (is_last s b.key) _ _
          (speed_asym (speed s a.key) (speed s b.key) _ _
            (failures_asym (failures_of s a.key) a.index (failures_of s b.key) b.index))
          h;
    not_trans = λ a b c h k.
        last_trans (is_last s a.key) (is_last s b.key) (is_last s c.key) _ _ _
          (speed_trans (speed s a.key) (speed s b.key) (speed s c.key) _ _ _ (
            failures_trans (failures_of s a.key) a.index (failures_of s b.key) b.index
              (failures_of s c.key) c.index))
          h k;
  }

  pub items-indexed :
      (i : ℕ) (key_of : A → Str) (xs : List A) → map (λ r. r.item) (indexed i key_of xs) ≡ xs
  unfolding indexed
  items-indexed i key_of [] = refl
  items-indexed i key_of (x ∷ xs) = ap (λ l. x ∷ l) (items-indexed (suc i) key_of xs)

  In-indexed :
      (i : ℕ) (key_of : A → Str) (x : A) (xs : List A)
      → In x xs
      → (r : Ranked A) × In r (indexed i key_of xs) × (r.key ≡ key_of x)
  unfolding indexed
  In-indexed i key_of x [] m = elim m [ ]
  In-indexed i key_of x (z ∷ xs) (here e) = (_, here refl, ap key_of (sym e))
  In-indexed i key_of x (z ∷ xs) (there m) =
      let (r, k, e) = In-indexed (suc i) key_of x xs m in (r, there k, e)

  indexed-key :
      (i : ℕ) (key_of : A → Str) (xs : List A) {r : Ranked A}
      → In r (indexed i key_of xs)
      → r.key ≡ key_of r.item
  unfolding indexed
  indexed-key i key_of [] m = elim m [ ]
  indexed-key i key_of (z ∷ xs) m = elim (In-cons m) [
    | inl e ↦ ap (λ (r : Ranked A). r.key) e ∙ sym (ap (λ (r : Ranked A). key_of r.item) e)
    | inr k ↦ indexed-key (suc i) key_of xs k
  ]

  last_low :
      (a b : Ranked A)
      → is_last s a.key ≡ true
      → ranks_before s a b ≡ false
      → is_last s b.key ≡ true
  unfolding ranks_before
  last_low a b h low = elim (Bool-cases (is_last s b.key)) [
    | inl t ↦ t
    | inr f ↦ absurd (false≢true (sym low ∙ rw (h, f)))
  ]

  sorted-last_first :
      (l : List (Ranked A)) (r : Ranked A)
      → IsSorted (ranks_before s) l
      → In r l
      → is_last s r.key ≡ true
      → (y : Ranked A) × (ys : List (Ranked A)) × (l ≡ y ∷ ys) × (is_last s y.key ≡ true)
  sorted-last_first [] r o m h = elim m [ ]
  sorted-last_first (y ∷ ys) r o m h = elim (In-cons m) [
    | inl e ↦ (y, ys, refl, subst (λ (z : Ranked A). is_last s z.key ≡ true) e h)
    | inr k ↦ (y, ys, refl, last_low r y h (o.0 r k))
  ]

  -- If an item has the key of the last success, then the first item that `RankByLearning` returns
  -- has it.
  pub rank-last_first :
      (key_of : A → Str) (x : A) (xs : List A)
      → In x xs
      → is_last s (key_of x) ≡ true
      → (y : A) × (ys : List A) × (rank_by_learning s key_of xs ≡ y ∷ ys)
        × (is_last s (key_of y) ≡ true)
  unfolding rank_by_learning
  rank-last_first key_of x [] i h = elim i [ ]
  rank-last_first key_of x (z ∷ []) i h = (
    z,
    [],
    refl,
    elim (In-cons i) [ inl e ↦ subst (λ v. is_last s (key_of v) ≡ true) e h | inr j ↦ elim j [ ] ],
  )
  rank-last_first key_of x (z ∷ w ∷ xs) i h =
      let l = indexed 0 key_of (z ∷ w ∷ xs) in
      let (r, m, e) = In-indexed 0 key_of x (z ∷ w ∷ xs) i in
      let (y, ys, p, q) =
        sorted-last_first (sort_by (ranks_before s) l) r
          (sort_by-IsSorted (ranks_before s) ranks_before-IsStrict l)
          (In-sort_by (ranks_before s) l m) (subst (λ k. is_last s k ≡ true) (sym e) h) in
      let listed = sort_by-In (ranks_before s) l (subst (λ v. In y v) (sym p) (here refl)) in
      (
        y.item,
        map (λ r. r.item) ys,
        ap (map (λ r. r.item)) p,
        subst (λ k. is_last s k ≡ true) (indexed-key 0 key_of (z ∷ w ∷ xs) listed) q,
      )
