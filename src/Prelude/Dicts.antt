-- ===== src/Prelude/Dicts.antt =====
-- Go maps with string keys, as association lists with one entry for each key.
use mathlib.Core.Path.{◌≡◌, refl}
use mathlib.Core.Option.{Option, none, some}
use mathlib.Core.List.{List, [], ◌∷◌}
use native.Mathlib.Omega.{arith}
use relkit.Prelude.Tests.{if◌then◌else◌}
use relkit.Prelude.Strings.{Str, ◌==◌, eq_iff, ==-refl}

abbrev pub Dict {ℓ} : Type ℓ → Type ℓ
Dict V = List (Str × V)

-- `m[key]`, and `m[key] = value`: the entry is changed where it stands, or added at the end.
module _ {ℓ} {V : Type ℓ} where
  unfoldable pub lookup : Str → Dict V → Option V
  lookup key [] = none
  lookup key ((name, value) ∷ entries) =
      let further = lookup key entries in if name == key then some value else further

  unfoldable pub insert : Str → V → Dict V → Dict V
  insert key new [] = (key, new) ∷ []
  insert key new ((name, value) ∷ entries) =
      let further = insert key new entries in
      if name == key then (key, new) ∷ entries else (name, value) ∷ further

  pub lookup-insert :
      (set get : Str) (new : V) (entries : Dict V)
      → lookup get (insert set new entries) ≡ (if set == get then some new else lookup get entries)
  unfolding lookup insert
  lookup-insert set get new [] = refl
  lookup-insert set get new ((name, value) ∷ entries) =
      let further = lookup-insert set get new entries in
      ground (arith, further, eq_iff name get, eq_iff name set, eq_iff set get)

  pub lookup-insert_self :
      (key : Str) (new : V) (entries : Dict V) → lookup key (insert key new entries) ≡ some new
  lookup-insert_self key new entries = rw (lookup-insert, ==-refl)

-- `m[k]` of a `map[string]string`: the empty string where there is none.
abbrev pub value_at : Str → Dict Str → Str
value_at key entries = elim (lookup key entries) [ none ↦ [] | some value ↦ value ]
