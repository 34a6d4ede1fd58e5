-- ===== src/Selectors.antt =====
-- internal/selectors/selectors.go: which artifact of a manifest a client takes.
pub mod Choice
pub mod Places
pub mod Matching
pub mod Duplicates
use relkit.Prelude.{
  ℕ, zero, suc, Bool, true, false, ◌&&◌, not, Option, none, some, List, [], ◌∷◌, ◌++◌, map, ℤ, pos,
  negsuc, length, Str, str, ◌==◌, ltb_str, ltb_ℤ, eqb_ℤ, if◌then◌else◌, any,
}
use relkit.Prelude.Dicts.{Dict, lookup, insert, value_at}
use relkit.Prelude.Sorting.{sort_by}
use relkit.Rup.{Artifact, Manifest, StrMap, Selector, selectors_to_map}

abbrev pub apply_key : Str
apply_key = str "apply"

-- `MatchesClient`.
unfoldable pub matches_client : StrMap → StrMap → Bool
matches_client [] client = true
matches_client ((key, value) ∷ required) client =
    if value_at key client == value then matches_client required client else false

-- `MatchesClientApply`: one required selector, and the loop over them.
unfoldable pub matches_one : Str → Str → StrMap → List Str → Bool
matches_one key value client prefs =
    if key == apply_key then any (λ pref. value == pref) prefs else value_at key client == value

unfoldable pub matches_client_apply : StrMap → StrMap → List Str → Bool
matches_client_apply [] client prefs = true
matches_client_apply ((key, value) ∷ required) client prefs =
    if matches_one key value client prefs then matches_client_apply required client prefs else false

-- The position of the first preference that equals the value, from `i`; -1 if there is none.
index_of : ℕ → Str → List Str → ℤ
index_of i value [] = negsuc 0
index_of i value (pref ∷ prefs) = if value == pref then pos i else index_of (suc i) value prefs

-- The closure `rank`.
unfoldable pub rank : List Str → Artifact → ℤ
unfolding index_of
rank prefs artifact = elim (lookup apply_key (selectors_to_map artifact.selectors)) [
  | none ↦ pos (length prefs)
  | some value ↦ index_of 0 value prefs
]

-- The comparison that the matches are sorted by.
unfoldable pub before : List Str → Artifact → Artifact → Bool
before prefs a b =
    if eqb_ℤ (rank prefs a) (rank prefs b)
    then ltb_str a.id b.id
    else ltb_ℤ (rank prefs a) (rank prefs b)

unfoldable pub matching : StrMap → List Str → List (Option Artifact) → List Artifact
matching client prefs [] = []
matching client prefs (none ∷ rest) = matching client prefs rest
matching client prefs (some artifact ∷ rest) =
    let later = matching client prefs rest in
    if matches_client_apply (selectors_to_map artifact.selectors) client prefs
    then artifact ∷ later
    else later

first : List Artifact → Option Artifact
first [] = none
first (artifact ∷ rest) = some artifact

unfoldable pub select_artifact_preferring : Manifest → StrMap → List Str → Option Artifact
unfolding first
select_artifact_preferring manifest client prefs =
    first (sort_by (before prefs) (matching client prefs manifest.artifacts))

unfoldable pub select_artifact : Manifest → StrMap → Option Artifact
select_artifact manifest client =
    let want = value_at apply_key client in
    select_artifact_preferring manifest client (if want == [] then [] else want ∷ [])
