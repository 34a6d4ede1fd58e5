-- ===== src/Prelude/Sorting.antt =====
-- `sort.Slice` and `sort.SliceStable`: insertion by a strict order.
use mathlib.Core.Path.{◌≡◌}
use mathlib.Core.Bool.{Bool, true, false}
use mathlib.Core.List.{List, [], ◌∷◌}
use mathlib.Core.Logic.{◌⊎◌, inl, inr}
use mathlib.Core.List.{Perm}
use mathlib.Core.List.Perm
use relkit.Prelude.Tests.{if◌then◌else◌, Bool-cases}
use relkit.Prelude.Lists.{In, here, there, In-cons}

-- The strict part of a total preorder.
pub record IsStrict {ℓ} {A : Type ℓ} (less : A → A → Bool) : Type ℓ where
  pub asym : (a b : A) → less a b ≡ true → less b a ≡ false
  pub not_trans : (a b c : A) → less b a ≡ false → less c b ≡ false → less c a ≡ false

module _ {ℓ} {A : Type ℓ} (less : A → A → Bool) where
  -- Before the first element that is not less, so equal elements keep their order.
  unfoldable pub insert_by : A → List A → List A
  insert_by a [] = a ∷ []
  insert_by a (x ∷ xs) = let later = insert_by a xs in if less x a then x ∷ later else a ∷ x ∷ xs

  unfoldable pub sort_by : List A → List A
  unfolding insert_by
  sort_by [] = []
  sort_by (x ∷ xs) = insert_by x (sort_by xs)

  insert_by-In : {a : A} (b : A) (xs : List A) → In a (insert_by b xs) → (a ≡ b) ⊎ In a xs
  unfolding insert_by
  insert_by-In b [] i = In-cons i
  insert_by-In b (x ∷ xs) i = elim (Bool-cases (less x b)) [
    | inl e ↦ elim (In-cons (rw e at i)) [
      | inl p ↦ inr (here p)
      | inr j ↦ elim (insert_by-In b xs j) [ inl p ↦ inl p | inr k ↦ inr (there k) ]
    ]
    | inr e ↦ In-cons (rw e at i)
  ]

  In-insert_by : {a : A} (b : A) (xs : List A) → (a ≡ b) ⊎ In a xs → In a (insert_by b xs)
  unfolding insert_by
  In-insert_by b [] (inl p) = here p
  In-insert_by b [] (inr i) = elim i [ ]
  In-insert_by b (x ∷ xs) w = elim (Bool-cases (less x b)) [
    | inl e ↦ rw e (elim w [
      | inl p ↦ there (In-insert_by b xs (inl p))
      | inr i ↦ elim (In-cons i) [ inl q ↦ here q | inr j ↦ there (In-insert_by b xs (inr j)) ]
    ])
    | inr e ↦ rw e (elim w [ inl p ↦ here p | inr i ↦ there i ])
  ]

  -- Sorting keeps the elements.
  pub sort_by-In : {a : A} (xs : List A) → In a (sort_by xs) → In a xs
  unfolding sort_by
  sort_by-In [] i = i
  sort_by-In (x ∷ xs) i = elim (insert_by-In x (sort_by xs) i) [
    | inl p ↦ here p
    | inr j ↦ there (sort_by-In xs j)
  ]

  pub In-sort_by : {a : A} (xs : List A) → In a xs → In a (sort_by xs)
  unfolding sort_by
  In-sort_by [] i = i
  In-sort_by (x ∷ xs) (here p) = In-insert_by x (sort_by xs) (inl p)
  In-sort_by (x ∷ xs) (there i) = In-insert_by x (sort_by xs) (inr (In-sort_by xs i))

  -- Nothing in the list is less.
  abbrev pub IsLow : A → List A → Type ℓ
  IsLow a xs = (b : A) → In b xs → less b a ≡ false

  abbrev pub IsSorted : List A → Type ℓ
  IsSorted [] = Unit
  IsSorted (x ∷ xs) = IsLow x xs × IsSorted xs

  insert_by-IsSorted :
      IsStrict less → (a : A) (xs : List A) → IsSorted xs → IsSorted (insert_by a xs)
  unfolding insert_by
  insert_by-IsSorted o a [] s = ((λ b i. elim i [ ]), tt)
  insert_by-IsSorted o a (x ∷ xs) s = elim (Bool-cases (less x a)) [
    | inl e ↦ rw e (
      (λ b i. elim (insert_by-In a xs i) [ inl p ↦ rw p (o.asym x a e) | inr j ↦ s.0 b j ]),
      insert_by-IsSorted o a xs s.1,
    )
    | inr e ↦
        rw e
          ((λ b i. elim (In-cons i) [ inl p ↦ rw p e | inr j ↦ o.not_trans a x b e (s.0 b j) ]), s)
  ]

  pub sort_by-IsSorted : IsStrict less → (xs : List A) → IsSorted (sort_by xs)
  unfolding sort_by
  sort_by-IsSorted o [] = tt
  sort_by-IsSorted o (x ∷ xs) = insert_by-IsSorted o x (sort_by xs) (sort_by-IsSorted o xs)

  insert_by-perm : (a : A) (xs : List A) → Perm (insert_by a xs) (a ∷ xs)
  unfolding insert_by
  insert_by-perm a [] = Perm.refl (a ∷ [])
  insert_by-perm a (x ∷ xs) = elim (Bool-cases (less x a)) [
    | inl e ↦ rw e (Perm.trans (Perm.cons x (insert_by-perm a xs)) (Perm.swap a x xs))
    | inr e ↦ rw e (Perm.refl (a ∷ x ∷ xs))
  ]

  pub sort_by-perm : (xs : List A) → Perm (sort_by xs) xs
  unfolding sort_by
  sort_by-perm [] = Perm.refl []
  sort_by-perm (x ∷ xs) = Perm.trans (insert_by-perm x (sort_by xs)) (Perm.cons x (sort_by-perm xs))
