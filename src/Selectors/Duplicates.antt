-- ===== src/Selectors/Duplicates.antt =====
-- `FindDuplicateSelectors`: artifacts of a stage that no client could tell apart.
use relkit.Prelude.{Option, none, some, List, [], ◌∷◌, ◌++◌, map, Str, str, ltb_str, if◌then◌else◌}
use relkit.Prelude.Dicts.{Dict, lookup, insert}
use relkit.Rup.{Selector, StrMap, selectors_to_map}

-- What is read of a `StagedArtifact`.
pub record StagedArtifact : Type 0 where
  pub id : Str
  pub selectors : List (Option Selector)

pub record DuplicateSelectors : Type 0 where
  pub first_id : Str
  pub second_id : Str
  pub selectors : StrMap

-- The entries of the map in the order of their keys.
insert_pair : Str × Str → StrMap → StrMap
insert_pair p [] = p ∷ []
insert_pair p (q ∷ rest) =
    let later = insert_pair p rest in if ltb_str q.0 p.0 then q ∷ later else p ∷ q ∷ rest

sorted_pairs : StrMap → StrMap
unfolding insert_pair
sorted_pairs [] = []
sorted_pairs (p ∷ rest) = insert_pair p (sorted_pairs rest)

-- `stringsJoin`
unfoldable pub strings_join : Str → List Str → Str
strings_join sep [] = []
strings_join sep (part ∷ []) = part
strings_join sep (part ∷ next ∷ rest) = part ++ sep ++ strings_join sep (next ∷ rest)

unfoldable pub separator : Str
separator = 31 ∷ []

-- `selectorKey`
unfoldable pub selector_key : StrMap → Str
unfolding sorted_pairs strings_join separator
selector_key selectors =
    strings_join separator (map (λ p. p.0 ++ str "=" ++ p.1) (sorted_pairs selectors))

-- The loop; `seen` is the first id for each key.
unfoldable pub duplicates_after : Dict Str → List (Option StagedArtifact) → List DuplicateSelectors
unfolding selector_key
duplicates_after seen [] = []
duplicates_after seen (none ∷ rest) = duplicates_after seen rest
duplicates_after seen (some artifact ∷ rest) =
    let selectors = selectors_to_map artifact.selectors in
    let key = selector_key selectors in
    let again = duplicates_after seen rest in
    elim (lookup key seen) [
      | some first_id ↦
          record { first_id = first_id; second_id = artifact.id; selectors = selectors } ∷ again
      | none ↦ duplicates_after (insert key artifact.id seen) rest
    ]

unfoldable pub find_duplicate_selectors : List (Option StagedArtifact) → List DuplicateSelectors
find_duplicate_selectors artifacts = duplicates_after [] artifacts
