-- ===== src/Library/Prune.antt =====
-- `pruneVersions` of internal/updater/apply.go: which of the installed versions go after an install.
use relkit.Prelude.{
  Bool, true, false, not, ◌&&◌, Option, none, some, List, [], ◌∷◌, ℤ, pos, Str, str, ◌==◌, eqb_ℤ,
  ltb_ℤ, leb_ℤ, if◌then◌else◌, any, keep, length,
}
use relkit.Prelude.Sets.{contains, add_key}
use relkit.Prelude.Sorting.{sort_by}
use relkit.Prelude.Text.{has_prefix, has_suffix}
use relkit.Library.{ActivePointer, VersionMeta, Entry, Tree, path_of, named_code}
use relkit.Library.Changes.{Trashing, gone, left_over, stuck}

-- `installedCode`
unfoldable pub code_without_meta : Option ActivePointer → Entry → ℤ
code_without_meta none e = named_code e.name
code_without_meta (some a) e = if a.path == path_of e then a.code else named_code e.name

unfoldable pub code_with : Option ActivePointer → Entry → Option VersionMeta → ℤ
code_with active e (some meta) = meta.code
code_with active e none = code_without_meta active e

unfoldable pub installed_code : Option ActivePointer → Entry → ℤ
installed_code active e = code_with active e e.meta

-- What `pruneVersions` is called with, and the versions that running processes use.
pub record Pruning : Type 0 where
  pub current : ActivePointer
  pub retain : ℤ
  pub reserved : List ℤ
  pub extra_keep : Str
  pub in_use : List Str

abbrev pub two : ℤ
two = pos 2

unfoldable pub retained : Pruning → ℤ
retained p = if leb_ℤ p.retain (pos 0) then two else p.retain

unfoldable pub add_path : Str → List Str → List Str
add_path path kept = if path == [] then kept else add_key path kept

-- The set `keep` before the versions are read.
unfoldable pub named_paths : Pruning → List Str
named_paths p =
    let kept = add_path p.extra_keep (add_path p.current.path []) in
    if leb_ℤ two (retained p) then add_path p.current.previous kept else kept

unfoldable pub is_hidden : Entry → Bool
is_hidden e = has_prefix e.name (str ".")

unfoldable pub is_item : Entry → Bool
is_item e = not (is_hidden e) && e.is_dir

unfoldable pub is_reserved_code : Pruning → ℤ → Bool
is_reserved_code p code = any (λ c. eqb_ℤ c code) p.reserved && not (eqb_ℤ code (pos 0))

unfoldable pub add_reserved : Pruning → Option ActivePointer → List Entry → List Str → List Str
add_reserved p active [] kept = kept
add_reserved p active (e ∷ rest) kept =
    add_reserved p active rest
      (if is_reserved_code p (installed_code active e) then add_key (path_of e) kept else kept)

unfoldable pub newest_first : Option ActivePointer → List Entry → List Entry
newest_first active items =
    sort_by (λ a b. ltb_ℤ (installed_code active b) (installed_code active a)) items

-- The loop that fills the set up to the budget.
unfoldable pub fill : ℤ → List Entry → List Str → List Str
fill budget [] kept = kept
fill budget (e ∷ rest) kept =
    if leb_ℤ budget (pos (length kept)) then kept else fill budget rest (add_key (path_of e) kept)

unfoldable pub kept_paths : Pruning → Tree → List Str
kept_paths p t =
    let items = keep is_item t.entries in
    fill (retained p) (newest_first t.active items) (add_reserved p t.active items (named_paths p))

-- Whether an entry is to go: a partial directory, or a version that nothing keeps.
unfoldable pub to_prune : Pruning → List Str → Entry → Bool
to_prune p kept e =
    if is_hidden e
    then has_suffix e.name (str ".relkit-partial")
    else e.is_dir && not (contains (path_of e) kept) && not (contains e.name p.in_use)

-- An entry that cannot be moved stays.
unfoldable pub is_movable : Trashing → Bool
is_movable stuck = false
is_movable gone = true
is_movable left_over = true

unfoldable pub prune_versions : Pruning → (Str → Trashing) → Tree → Tree
prune_versions p trashing t =
    let kept = kept_paths p t in
    record t {
      entries = keep (λ e. not (to_prune p kept e && is_movable (trashing e.name))) t.entries;
    }
