-- ===== src/Semver/Laws.antt =====
-- Precedence of versions is a total preorder, stage by stage of the comparison.
use Prim.Native.Nat.{compare, Ordering}
use Prim.Native.Nat.Ordering.{lt, eq}
use relkit.Prelude.{
  ap, ℕ, Option, none, some, List, [], ◌∷◌, Str, ◌≡◌, refl, ◌∙◌, arith, ◌⊎◌, inl, inr,
  if◌then◌else◌, Bool-cases, length,
}
use relkit.Semver.{
  SemVersion, digits, trim_zeros, compare_str, compare_numeric, compare_identifier,
  compare_identifiers, compare_prerelease, compare_core, compare_parsed, compare_both,
  compare_versions, parse_sem_version,
}
use relkit.Semver.Orders.{
  IsOrder, swap, or_next, compare-IsOrder, compare_str-IsOrder, by-IsOrder, or_next-IsOrder,
  of_eq-IsOrder,
}

-- Numbers come before words, and a number with fewer digits before one with more.
kind : Str → ℕ
kind s = if digits s then 0 else 1

size : Str → ℕ
size s = if digits s then length (trim_zeros s) else 0

body : Str → Str
body s = if digits s then trim_zeros s else s

by_keys : Str → Str → Ordering
by_keys a b =
    or_next (compare (kind a) (kind b))
      (or_next (compare (size a) (size b)) (compare_str (body a) (body b)))

compare_numeric-keys :
    (a b : Str) → compare_numeric a b ≡ or_next (compare (length a) (length b)) (compare_str a b)
unfolding compare_numeric
compare_numeric-keys a b = ground arith

compare_identifier-keys : (a b : Str) → compare_identifier a b ≡ by_keys a b
unfolding compare_identifier by_keys kind size body
compare_identifier-keys a b = elim (Bool-cases (digits a)) [
  | inl p ↦ elim (Bool-cases (digits b)) [
    | inl q ↦ rw (p, q) (compare_numeric-keys (trim_zeros a) (trim_zeros b))
    | inr q ↦ rw (p, q) refl
  ]
  | inr p ↦ elim (Bool-cases (digits b)) [ inl q ↦ rw (p, q) refl | inr q ↦ rw (p, q) refl ]
]

pub compare_identifier-IsOrder : IsOrder compare_identifier
unfolding by_keys
compare_identifier-IsOrder = of_eq-IsOrder compare_identifier-keys (
    or_next-IsOrder (by-IsOrder kind compare-IsOrder)
      (or_next-IsOrder (by-IsOrder size compare-IsOrder) (by-IsOrder body compare_str-IsOrder)))

compare_identifiers-swapped :
    (a b : List Str) → compare_identifiers b a ≡ swap (compare_identifiers a b)
unfolding compare_identifiers
compare_identifiers-swapped [] [] = refl
compare_identifiers-swapped [] (y ∷ b) = refl
compare_identifiers-swapped (x ∷ a) [] = refl
compare_identifiers-swapped (x ∷ a) (y ∷ b) =
    ground (arith, compare_identifier-IsOrder.swapped x y, compare_identifiers-swapped a b)

compare_identifiers-same :
    (a b c : List Str)
    → compare_identifiers a b ≡ eq
    → compare_identifiers a c ≡ compare_identifiers b c
unfolding compare_identifiers
compare_identifiers-same [] [] c e = refl
compare_identifiers-same [] (y ∷ b) c e = cc
compare_identifiers-same (x ∷ a) [] c e = cc
compare_identifiers-same (x ∷ a) (y ∷ b) [] e = refl
compare_identifiers-same (x ∷ a) (y ∷ b) (z ∷ c) e =
    ground (arith, compare_identifier-IsOrder.same x y z, compare_identifiers-same a b c)

compare_identifiers-below :
    (a b c : List Str)
    → compare_identifiers a b ≡ lt
    → compare_identifiers b c ≡ lt
    → compare_identifiers a c ≡ lt
unfolding compare_identifiers
compare_identifiers-below [] [] c e d = cc
compare_identifiers-below [] (y ∷ b) [] e d = cc
compare_identifiers-below [] (y ∷ b) (z ∷ c) e d = refl
compare_identifiers-below (x ∷ a) [] c e d = cc
compare_identifiers-below (x ∷ a) (y ∷ b) [] e d = cc
compare_identifiers-below (x ∷ a) (y ∷ b) (z ∷ c) e d = ground (
  arith,
  compare_identifier-IsOrder.swapped x y,
  compare_identifier-IsOrder.swapped y z,
  compare_identifier-IsOrder.swapped x z,
  compare_identifier-IsOrder.same x y z,
  compare_identifier-IsOrder.same y z x,
  compare_identifier-IsOrder.same z y x,
  compare_identifier-IsOrder.below x y z,
  compare_identifiers-below a b c,
)

compare_identifiers-IsOrder : IsOrder compare_identifiers
compare_identifiers-IsOrder = record {
  swapped = compare_identifiers-swapped;
  same = compare_identifiers-same;
  below = compare_identifiers-below;
}

-- A version without a prerelease comes last.
last_place : List Str → ℕ
last_place [] = 1
last_place (_ ∷ _) = 0

compare_prerelease-keys :
    (a b : List Str)
    → compare_prerelease a b
      ≡ or_next (compare (last_place a) (last_place b)) (compare_identifiers a b)
unfolding compare_prerelease last_place compare_identifiers
compare_prerelease-keys [] [] = refl
compare_prerelease-keys [] (y ∷ b) = refl
compare_prerelease-keys (x ∷ a) [] = refl
compare_prerelease-keys (x ∷ a) (y ∷ b) = refl

compare_prerelease-IsOrder : IsOrder compare_prerelease
compare_prerelease-IsOrder =
    of_eq-IsOrder compare_prerelease-keys
      (or_next-IsOrder (by-IsOrder last_place compare-IsOrder) compare_identifiers-IsOrder)

compare_core-keys : (a b : ℕ) (rest : Ordering) → compare_core a b rest ≡ or_next (compare a b) rest
unfolding compare_core
compare_core-keys a b rest = ground arith

compare_parsed-keys :
    (a b : SemVersion)
    → compare_parsed a b
      ≡ or_next (compare a.major b.major) (
          or_next
            (compare a.minor b.minor)
            (or_next (compare a.patch b.patch) (compare_prerelease a.prerelease b.prerelease)))
unfolding compare_parsed
compare_parsed-keys a b = rw (compare_core-keys, compare_core-keys, compare_core-keys) refl

compare_parsed-IsOrder : IsOrder compare_parsed
compare_parsed-IsOrder = of_eq-IsOrder compare_parsed-keys (
    or_next-IsOrder (by-IsOrder (λ v. v.major) compare-IsOrder) (
      or_next-IsOrder (by-IsOrder (λ v. v.minor) compare-IsOrder) (
        or_next-IsOrder (by-IsOrder (λ v. v.patch) compare-IsOrder)
          (by-IsOrder (λ v. v.prerelease) compare_prerelease-IsOrder))))

-- The first version does not come after the second.
abbrev pub IsAtMost : Str → Str → Type 0
IsAtMost a b = (compare_versions a b ≡ some lt) ⊎ (compare_versions a b ≡ some eq)

both_swapped :
    (a b : Option SemVersion) (x : Ordering)
    → compare_both a b ≡ some x
    → compare_both b a ≡ some (swap x)
unfolding compare_both
both_swapped none b x e = cc
both_swapped (some a) none x e = cc
both_swapped (some a) (some b) x e =
    ap some (compare_parsed-IsOrder.swapped a b ∙ ap swap (some_inj e))
  where
    some_inj : {y z : Ordering} → ◌≡◌ {A = Option Ordering} (some y) (some z) → y ≡ z
    some_inj p = cc

both_at_most :
    (a b c : Option SemVersion)
    → (compare_both a b ≡ some lt) ⊎ (compare_both a b ≡ some eq)
    → (compare_both b c ≡ some lt) ⊎ (compare_both b c ≡ some eq)
    → (compare_both a c ≡ some lt) ⊎ (compare_both a c ≡ some eq)
unfolding compare_both
both_at_most none b c (inl e) q = cc
both_at_most none b c (inr e) q = cc
both_at_most (some a) none c (inl e) q = cc
both_at_most (some a) none c (inr e) q = cc
both_at_most (some a) (some b) none p (inl e) = cc
both_at_most (some a) (some b) none p (inr e) = cc
both_at_most (some a) (some b) (some c) p q = ground (
  arith,
  compare_parsed-IsOrder.swapped a b,
  compare_parsed-IsOrder.swapped b c,
  compare_parsed-IsOrder.swapped a c,
  compare_parsed-IsOrder.same a b c,
  compare_parsed-IsOrder.same c b a,
  compare_parsed-IsOrder.below a b c,
)

-- If `CompareVersions` of two versions has a result, it has the opposite result for the two in
-- the other order.
pub compare_versions-swapped :
    (a b : Str) (x : Ordering)
    → compare_versions a b ≡ some x
    → compare_versions b a ≡ some (swap x)
unfolding compare_versions
compare_versions-swapped a b x e = both_swapped (parse_sem_version a) (parse_sem_version b) x e

-- If both of two versions can be parsed and the first does not come after the second, and the
-- same holds of the second and a third, then the first does not come after the third.
pub compare_versions-IsAtMost : (a b c : Str) → IsAtMost a b → IsAtMost b c → IsAtMost a c
unfolding compare_versions
compare_versions-IsAtMost a b c p q =
    both_at_most (parse_sem_version a) (parse_sem_version b) (parse_sem_version c) p q
