-- ===== src/Prelude/Sets.antt =====
-- Go's `map[string]struct{}`: a list that has each string once.
use mathlib.Core.Path.{◌≡◌, refl, subst}
use mathlib.Core.Bool.{Bool, true}
use mathlib.Core.List.{List, ◌∷◌}
use mathlib.Core.Logic.{inl, inr}
use relkit.Prelude.Tests.{if◌then◌else◌, Bool-cases}
use relkit.Prelude.Lists.{any, In, here, there, any-In, In-any}
use relkit.Prelude.Strings.{Str, ◌==◌, ==-refl, eq_of_==}

unfoldable pub contains : Str → List Str → Bool
contains key live = any (λ k. k == key) live

unfoldable pub add_key : Str → List Str → List Str
unfolding contains
add_key key live = if contains key live then live else key ∷ live

pub contains-In : (k : Str) (live : List Str) → contains k live ≡ true → In k live
unfolding contains
contains-In k live e = let (j, i, h) = any-In _ live e in subst (λ z. In z live) (eq_of_== j k h) i

pub In-contains : (k : Str) (live : List Str) → In k live → contains k live ≡ true
unfolding contains
In-contains k live i = In-any _ live i (==-refl k)

pub In-add_key : (k : Str) (live : List Str) → In k (add_key k live)
unfolding add_key
In-add_key k live = elim (Bool-cases (contains k live)) [
  | inl e ↦ rw e (contains-In k live e)
  | inr e ↦ rw e (here refl)
]

pub In-add_key_old : {j : Str} (k : Str) (live : List Str) → In j live → In j (add_key k live)
unfolding add_key
In-add_key_old k live i = elim (Bool-cases (contains k live)) [
  | inl e ↦ rw e i
  | inr e ↦ rw e (there i)
]
