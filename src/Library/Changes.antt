-- ===== src/Library/Changes.antt =====
-- What changes an install: `deleteInstalled`, `switchActive` and `rollbackActive`.
use relkit.Prelude.{
  Bool, true, false, not, Option, none, some, List, [], ◌∷◌, ◌++◌, ℤ, pos, Str, str, ◌==◌, eqb_ℤ,
  if◌then◌else◌, any, keep,
}
use relkit.Prelude.Results.{Result, ok, err}
use relkit.Library.{
  ActivePointer, VersionMeta, Entry, Tree, InstalledVersion, path_of, list_installed,
}

pub data LibraryError : Type 0 where
  is_active in_use not_installed no_previous previous_missing not_moved not_removed not_written :
      LibraryError

-- What a change returns: its error, if any, and the tree after it.
abbrev pub Changed : Type 0
Changed = Result LibraryError (Unit {0}) × Tree

-- What becomes of a directory that `moveToTrash` is given: it is renamed and removed, it is renamed
-- but not wholly removed, or it cannot be renamed.
pub data Trashing : Type 0 where
  gone left_over stuck : Trashing

unfoldable pub without_path : Str → List Entry → List Entry
without_path path entries = keep (λ e. not (path_of e == path)) entries

unfoldable pub move_to_trash : Trashing → Str → Tree → Changed
move_to_trash gone path t = (ok tt, record t { entries = without_path path t.entries })
move_to_trash left_over path t =
    (err not_removed, record t { entries = without_path path t.entries })
move_to_trash stuck path t = (err not_moved, t)

-- The first listed version with the code.
unfoldable pub find_version : ℤ → List InstalledVersion → Option InstalledVersion
find_version code [] = none
find_version code (v ∷ rest) =
    let later = find_version code rest in if eqb_ℤ v.code code then some v else later

-- `active != nil && active.Code == code`
unfoldable pub has_code : ℤ → Option ActivePointer → Bool
has_code code none = false
has_code code (some a) = eqb_ℤ a.code code

unfoldable pub delete_found : Trashing → Option InstalledVersion → Tree → Changed
delete_found trashing none t = (err not_installed, t)
delete_found trashing (some v) t = move_to_trash trashing v.path t

unfoldable pub delete_installed : Trashing → ℤ → List ℤ → Tree → Changed
delete_installed trashing code used t =
    if has_code code t.active
    then (err is_active, t)
    else if any (λ c. eqb_ℤ c code) used
    then (err in_use, t)
    else delete_found trashing (find_version code (list_installed t).versions) t

-- What `readVersionMeta` and `os.Stat` see at a path.
unfoldable pub find_entry : Str → List Entry → Option Entry
find_entry path [] = none
find_entry path (e ∷ rest) =
    let later = find_entry path rest in if path_of e == path then some e else later

unfoldable pub bundle_at : Str → Tree → Str
bundle_at path t = elim (find_entry path t.entries) [
  | none ↦ []
  | some e ↦ elim e.meta [ none ↦ [] | some meta ↦ meta.bundle ]
]

unfoldable pub previous_path : Option ActivePointer → Str
previous_path none = []
previous_path (some a) = a.path

unfoldable pub pointer_to : Tree → InstalledVersion → ActivePointer
unfolding previous_path
pointer_to t v = record {
  code = v.code;
  version = v.version;
  path = v.path;
  executable = v.executable;
  bundle = bundle_at v.path t;
  previous = previous_path t.active;
}

-- `writeActive`, which replaces the pointer whole or fails.
unfoldable pub write_active : Bool → ActivePointer → Tree → Changed
write_active true pointer t = (ok tt, record t { active = some pointer })
write_active false pointer t = (err not_written, t)

unfoldable pub switch_found : Bool → Option InstalledVersion → Tree → Changed
switch_found writes none t = (err not_installed, t)
switch_found writes (some v) t = write_active writes (pointer_to t v) t

unfoldable pub switch_active : Bool → ℤ → Tree → Changed
switch_active writes code t = switch_found writes (find_version code (list_installed t).versions) t

-- `filepath.Base` of a path that does not end in a slash.
base_from : Str → Str → Str
base_from found [] = found
base_from found (c ∷ rest) =
    if (c ∷ []) == str "/" then base_from rest rest else base_from found rest

-- `filepath.Join(dir, filepath.Base(path))`
unfoldable pub moved_to : Str → Str → Str
unfolding base_from
moved_to dir path = if path == [] then dir else dir ++ str "/" ++ base_from path path

-- The pointer to the previous version, by its version file.
unfoldable pub pointer_back : ActivePointer → Option VersionMeta → ActivePointer
pointer_back cur (some meta) = record {
  code = meta.code;
  version = meta.version;
  path = cur.previous;
  executable = meta.executable;
  bundle = meta.bundle;
  previous = cur.path;
}
pointer_back cur none = record {
  code = pos 0;
  version = [];
  path = cur.previous;
  executable = moved_to cur.previous cur.executable;
  bundle = [];
  previous = cur.path;
}

unfoldable pub rollback_found : Bool → ActivePointer → Option Entry → Tree → Changed
rollback_found writes cur none t = (err previous_missing, t)
rollback_found writes cur (some e) t = write_active writes (pointer_back cur e.meta) t

unfoldable pub rollback_from : Bool → Option ActivePointer → Tree → Changed
rollback_from writes none t = (err no_previous, t)
rollback_from writes (some cur) t =
    if cur.previous == []
    then (err no_previous, t)
    else rollback_found writes cur (find_entry cur.previous t.entries) t

unfoldable pub rollback_active : Bool → Tree → Changed
rollback_active writes t = rollback_from writes t.active t
