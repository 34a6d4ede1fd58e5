-- ===== src/Prelude/Lists.antt =====
-- Lists measured by native numbers, predicates by recursion, and membership as a family.
use Prim.Native.Nat.{ℕ, suc, ◌+◌}
use mathlib.Core.Path.{◌≡◌, refl, sym, subst, ◌∙◌}
use mathlib.Core.Bool.{Bool, true, false, false≢true}
use mathlib.Core.List.{List, [], ◌∷◌, ◌++◌}
use mathlib.Core.Logic.{◌⊎◌, inl, inr}
use native.Mathlib.Omega.{arith}
use relkit.Prelude.Tests.{if◌then◌else◌, Bool-cases}

module _ {ℓ} {A : Type ℓ} where
  abbrev pub length : List A → ℕ
  length [] = 0
  length (x ∷ xs) = suc (length xs)

  pub length-append : (xs ys : List A) → length (xs ++ ys) ≡ length xs + length ys
  length-append [] ys = omega arith
  length-append (x ∷ xs) ys = omega (arith, length-append xs ys)

  abbrev pub is_empty : List A → Bool
  is_empty [] = true
  is_empty (x ∷ xs) = false

  abbrev pub keep : (A → Bool) → List A → List A
  keep p [] = []
  keep p (x ∷ xs) = let rest = keep p xs in if p x then x ∷ rest else rest

  abbrev pub any : (A → Bool) → List A → Bool
  any p [] = false
  any p (x ∷ xs) = let rest = any p xs in if p x then true else rest

  -- the last element, or the given one
  abbrev pub last_or : A → List A → A
  last_or d [] = d
  last_or d (x ∷ xs) = last_or x xs

-- Membership that can be matched.
pub data In {ℓ} {A : Type ℓ} (a : A) : List A → Type ℓ where
  here : {x : A} {xs : List A} → a ≡ x → In a (x ∷ xs)
  there : {x : A} {xs : List A} → In a xs → In a (x ∷ xs)

module _ {ℓ} {A : Type ℓ} where
  pub In-cons : {a x : A} {xs : List A} → In a (x ∷ xs) → (a ≡ x) ⊎ In a xs
  In-cons (here e) = inl e
  In-cons (there i) = inr i

  pub keep-In : {a : A} (p : A → Bool) (xs : List A) → In a (keep p xs) → In a xs × (p a ≡ true)
  keep-In p [] i = elim i [ ]
  keep-In p (x ∷ xs) i = elim (Bool-cases (p x)) [
    | inl yes_x ↦ elim (In-cons (rw yes_x at i)) [
      | inl e ↦ (here e, rw e yes_x)
      | inr j ↦ (there (keep-In p xs j).0, (keep-In p xs j).1)
    ]
    | inr no_x ↦ let j = keep-In p xs (rw no_x at i) in (there j.0, j.1)
  ]

  pub In-keep : {a : A} (p : A → Bool) (xs : List A) → In a xs → p a ≡ true → In a (keep p xs)
  In-keep p [] i h = elim i [ ]
  In-keep {a} p (x ∷ xs) (here e) h =
      let q : p x ≡ true = subst (λ y. p y ≡ true) e h in rw q (here e)
  In-keep p (x ∷ xs) (there i) h = elim (Bool-cases (p x)) [
    | inl yes_x ↦ rw yes_x (there (In-keep p xs i h))
    | inr no_x ↦ rw no_x (In-keep p xs i h)
  ]

  pub any-In : (p : A → Bool) (xs : List A) → any p xs ≡ true → (a : A) × In a xs × (p a ≡ true)
  any-In p [] e = absurd (false≢true e)
  any-In p (x ∷ xs) e = elim (Bool-cases (p x)) [
    | inl yes_x ↦ (x, here refl, yes_x)
    | inr no_x ↦ let (a, i, h) = any-In p xs (rw no_x at e) in (a, there i, h)
  ]

  pub In-any : (p : A → Bool) (xs : List A) {a : A} → In a xs → p a ≡ true → any p xs ≡ true
  In-any p [] i h = elim i [ ]
  In-any p (x ∷ xs) (here e) h = let q : p x ≡ true = subst (λ y. p y ≡ true) e h in rw q
  In-any p (x ∷ xs) (there i) h = elim (Bool-cases (p x)) [
    | inl yes_x ↦ rw yes_x
    | inr no_x ↦ rw no_x (In-any p xs i h)
  ]

  pub any-false : (p : A → Bool) (xs : List A) {a : A} → any p xs ≡ false → In a xs → p a ≡ false
  any-false p xs {a} e i = elim (Bool-cases (p a)) [
    | inl t ↦ absurd (false≢true (sym e ∙ In-any p xs i t))
    | inr f ↦ f
  ]
