-- ===== src/Examples/SelectorRuns.antt =====
-- Runs of internal/selectors/selectors.go on a manifest of two artifacts for one platform.
use relkit.Prelude.{
  ltb_str, ◌++◌, ◌≡◌, refl, sym, ne_of_==, ap, true, Option, none, some, List, [], ◌∷◌, ℤ, pos, Str,
  str, In, here, there, In-cons, inl, inr, ◌↔◌, arith,
}
use relkit.Rup.{Artifact, Manifest, Selector, StrMap, archive, installer, selectors_to_map}
use relkit.Selectors.{
  apply_key, select_artifact_preferring, matches_client_apply, matching, before, rank,
}
use relkit.Selectors.Duplicates.{selector_key, separator}
use relkit.Selectors.Choice.{IsMatch, IsChoice, select-IsChoice, select_artifact-none, select_order}
use relkit.Selectors.Matching.{Meets, matches_client_apply_iff}

abbrev selector : Str → Str → Option Selector
selector key value = some (record { key = key; value = value })

abbrev zip : Artifact
zip = record {
  id = str "b";
  filename = str "b.zip";
  size = pos 2;
  sha256 = [];
  kind = archive;
  selectors = selector (str "os") (str "mac") ∷ selector apply_key (str "bundle") ∷ [];
  urls = [];
}

abbrev setup : Artifact
setup = record {
  id = str "a";
  filename = str "a.exe";
  size = pos 1;
  sha256 = [];
  kind = installer;
  selectors = selector (str "os") (str "mac") ∷ selector apply_key (str "installer") ∷ [];
  urls = [];
}

abbrev listing : List (Option Artifact) → Manifest
listing artifacts = record {
  schema = [];
  product = str "p";
  version = str "1";
  code = pos 1;
  released_at = [];
  notes = [];
  artifacts = artifacts;
}

abbrev both : Manifest
both = listing (some setup ∷ none ∷ some zip ∷ [])

abbrev swapped : Manifest
swapped = listing (some zip ∷ some setup ∷ [])

abbrev mac : StrMap
mac = (str "os", str "mac") ∷ []

abbrev prefs : List Str
prefs = str "bundle" ∷ str "installer" ∷ []

takes_zip : select_artifact_preferring both mac prefs ≡ some zip
unfolding select_artifact_preferring relkit.Prelude.Sorting.sort_by matching matches_client_apply
    selectors_to_map relkit.Prelude.◌==◌ relkit.Prelude.Dicts.insert relkit.Selectors.matches_one
    relkit.Prelude.Dicts.lookup before rank
takes_zip = refl

select-IsChoice_example : IsChoice both mac prefs zip
select-IsChoice_example = select-IsChoice both mac prefs takes_zip

takes_none : select_artifact_preferring both [] prefs ≡ none
unfolding select_artifact_preferring relkit.Prelude.Sorting.sort_by matching matches_client_apply
    selectors_to_map relkit.Prelude.◌==◌ relkit.Prelude.Dicts.insert relkit.Selectors.matches_one
    relkit.Prelude.Dicts.lookup
takes_none = refl

select_artifact-none_example : ¬ IsMatch both [] prefs zip
select_artifact-none_example = select_artifact-none both [] prefs zip takes_none

to_swapped : (a : Artifact) → In (some a) both.artifacts → In (some a) swapped.artifacts
to_swapped a (here e) = there (here e)
to_swapped a (there (here e)) = cc
to_swapped a (there (there (here e))) = here e
to_swapped a (there (there (there i))) = elim i [ ]

from_swapped : (a : Artifact) → In (some a) swapped.artifacts → In (some a) both.artifacts
from_swapped a (here e) = there (there (here e))
from_swapped a (there (here e)) = here e
from_swapped a (there (there i)) = elim i [ ]

one_of : (a : Artifact) → In (some a) both.artifacts → In a (setup ∷ zip ∷ [])
one_of a (here e) = here (cc)
one_of a (there (here e)) = cc
one_of a (there (there (here e))) = there (here (cc))
one_of a (there (there (there i))) = elim i [ ]

ids_differ : setup.id ≡ zip.id → ⊥
unfolding relkit.Prelude.◌==◌
ids_differ = ne_of_== (str "a") (str "b") refl

distinct_ids :
    (a b : Artifact) → In a (setup ∷ zip ∷ []) → In b (setup ∷ zip ∷ []) → a.id ≡ b.id → a ≡ b
distinct_ids a b (here e) (here f) s = rw (e, f)
distinct_ids a b (here e) (there (here f)) s = absurd (ids_differ (rw (e, f) at s))
distinct_ids a b (there (here e)) (here f) s = absurd (ids_differ (sym (rw (e, f) at s)))
distinct_ids a b (there (here e)) (there (here f)) s = rw (e, f)
distinct_ids a b (here e) (there (there i)) s = elim i [ ]
distinct_ids a b (there (here e)) (there (there i)) s = elim i [ ]
distinct_ids a b (there (there i)) _ s = elim i [ ]

select_order_example :
    select_artifact_preferring both mac prefs ≡ select_artifact_preferring swapped mac prefs
select_order_example =
    select_order both swapped mac prefs (λ a. (to_swapped a, from_swapped a))
      (λ a b i j s. distinct_ids a b (one_of a i) (one_of b j) s)

matches_client_apply_iff_example :
    (matches_client_apply ((apply_key, str "bundle") ∷ mac) mac prefs ≡ true) ↔ (
      (key value : Str)
      → In (key, value) ((apply_key, str "bundle") ∷ mac)
      → Meets mac prefs key value)
matches_client_apply_iff_example =
    matches_client_apply_iff ((apply_key, str "bundle") ∷ mac) mac prefs

-- Two different selector maps with one key: a value may hold the separator.
abbrev joined : StrMap
joined = (str "a", str "x" ++ separator ++ str "b=y") ∷ []

abbrev apart : StrMap
apart = (str "a", str "x") ∷ (str "b", str "y") ∷ []

same_key : selector_key joined ≡ selector_key apart
unfolding selector_key separator ltb_str
same_key = refl
