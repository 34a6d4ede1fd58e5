-- ===== src/Prelude/Strings.antt =====
-- Go strings: lists of bytes, compared byte by byte.
use Prim.Native.Nat.{ℕ}
use Prim.Native.Char.{code}
use Prim.Native.String.{String}
use mathlib.Core.Path.{◌≡◌, refl, sym, ◌∙◌}
use mathlib.Core.Logic.{◌↔◌}
use mathlib.Core.Bool.{Bool, true, false, false≢true}
use mathlib.Core.List.{List, [], ◌∷◌}
use native.Mathlib.Omega.{arith}
use relkit.Prelude.Tests.{eqb_ℕ, ltb, if◌then◌else◌}

abbrev pub Str : Type 0
Str = List ℕ

-- The bytes of an ASCII literal.
abbrev pub str : String → Str
str String.[] = []
str (String.◌∷◌ c s) = code c ∷ str s

infix 50 ◌==◌
unfoldable pub ◌==◌ : Str → Str → Bool
[] == [] = true
[] == (_ ∷ _) = false
(_ ∷ _) == [] = false
(a ∷ s) == (b ∷ t) = let rest = s == t in if eqb_ℕ a b then rest else false

pub ==-refl : (s : Str) → (s == s) ≡ true
unfolding ◌==◌
==-refl [] = refl
==-refl (a ∷ s) = ground (arith, ==-refl s)

pub eq_of_== : (s t : Str) → (s == t) ≡ true → s ≡ t
unfolding ◌==◌
eq_of_== [] [] h = refl
eq_of_== [] (_ ∷ _) h = cc
eq_of_== (_ ∷ _) [] h = cc
eq_of_== (a ∷ s) (b ∷ t) h = ground (arith, eq_of_== s t)

pub eq_iff : (s t : Str) → ((s == t) ≡ true) ↔ (s ≡ t)
eq_iff s t = (eq_of_== s t, λ e. rw e (==-refl t))

-- Go's `<` on strings.
unfoldable pub ltb_str : Str → Str → Bool
ltb_str [] [] = false
ltb_str [] (_ ∷ _) = true
ltb_str (_ ∷ _) [] = false
ltb_str (a ∷ s) (b ∷ t) =
    let rest = ltb_str s t in if ltb a b then true else if ltb b a then false else rest

pub ltb_str_irrefl : (s : Str) → ltb_str s s ≡ false
unfolding ltb_str
ltb_str_irrefl [] = refl
ltb_str_irrefl (a ∷ s) = ground (arith, ltb_str_irrefl s)

pub ltb_str_asym : (s t : Str) → ltb_str s t ≡ true → ltb_str t s ≡ false
unfolding ltb_str
ltb_str_asym [] [] h = refl
ltb_str_asym [] (_ ∷ _) h = refl
ltb_str_asym (_ ∷ _) [] h = cc
ltb_str_asym (a ∷ s) (b ∷ t) h = ground (arith, ltb_str_asym s t)

pub ltb_str_trans : (s t u : Str) → ltb_str s t ≡ true → ltb_str t u ≡ true → ltb_str s u ≡ true
unfolding ltb_str
ltb_str_trans [] [] u h k = cc
ltb_str_trans [] (_ ∷ _) [] h k = k
ltb_str_trans [] (_ ∷ _) (_ ∷ _) h k = refl
ltb_str_trans (_ ∷ _) [] u h k = cc
ltb_str_trans (_ ∷ _) (_ ∷ _) [] h k = cc
ltb_str_trans (a ∷ s) (b ∷ t) (c ∷ u) h k = ground (arith, ltb_str_trans s t u)

pub ltb_str_total : (s t : Str) → ltb_str s t ≡ false → ltb_str t s ≡ false → s ≡ t
unfolding ltb_str
ltb_str_total [] [] h k = refl
ltb_str_total [] (_ ∷ _) h k = cc
ltb_str_total (_ ∷ _) [] h k = cc
ltb_str_total (a ∷ s) (b ∷ t) h k = ground (arith, ltb_str_total s t)

pub ne_of_== : (s t : Str) → (s == t) ≡ false → s ≡ t → ⊥
ne_of_== s t h e = absurd (false≢true (sym h ∙ (eq_iff s t).1 e))
