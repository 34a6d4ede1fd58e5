-- ===== src/Library.antt =====
-- internal/updater/library.go: the versions that a LIBRARY install keeps side by side. `Tree` is what
-- lies under the install root: `active.json`, and the entries of `versions/` in the order of
-- `os.ReadDir`, each with its version file. The paths that pointers hold lie in `versions/`.
pub mod Changes
pub mod Coherence
pub mod Steps
pub mod Handlers
pub mod Prune
pub mod Pruned
use relkit.Prelude.{
  ℕ, zero, suc, ◌+◌, ◌*◌, ◌-◌, ◌^◌, Bool, true, false, not, ◌&&◌, ◌||◌, Option, none, some, List,
  [], ◌∷◌, ◌++◌, map, ℤ, pos, negsuc, Str, str, ◌==◌, ltb, leb, leb_ℤ, ltb_ℤ, eqb_ℤ, if◌then◌else◌,
  any, keep,
}
use relkit.Prelude.Results.{Result, ok, err}
use relkit.Prelude.Sorting.{sort_by}

-- `activePointer`; an empty `previous` is none.
pub record ActivePointer : Type 0 where
  pub code : ℤ
  pub version : Str
  pub path : Str
  pub executable : Str
  pub bundle : Str
  pub previous : Str

-- `versionMeta`, but for the path that nothing here reads.
pub record VersionMeta : Type 0 where
  pub code : ℤ
  pub version : Str
  pub executable : Str
  pub bundle : Str

-- An entry of `versions/`; `meta` is what `readVersionMeta` returns for it.
pub record Entry : Type 0 where
  pub name : Str
  pub is_dir : Bool
  pub meta : Option VersionMeta

pub record Tree : Type 0 where
  pub active : Option ActivePointer
  pub entries : List Entry

-- `InstalledVersion`
pub record InstalledVersion : Type 0 where
  pub path : Str
  pub code : ℤ
  pub version : Str
  pub executable : Str
  pub active : Bool

-- `InstalledList`
pub record InstalledList : Type 0 where
  pub active_code : ℤ
  pub versions : List InstalledVersion

unfoldable pub path_of : Entry → Str
path_of e = str "versions/" ++ e.name

-- `strconv.ParseInt(s, 10, 64)`: the digits from the left, an optional sign, the bounds of int64.
digits_value : ℕ → Str → Option ℕ
digits_value total [] = some total
digits_value total (c ∷ rest) =
    let more = digits_value (10 * total + (c - 48)) rest in
    if leb 48 c && leb c 57 then more else none

unsigned : Str → Option ℕ
unfolding digits_value
unsigned [] = none
unsigned (c ∷ rest) = digits_value 0 (c ∷ rest)

bounded : ℕ → (ℕ → ℤ) → Option ℕ → Option ℤ
bounded limit sign none = none
bounded limit sign (some n) = if ltb n limit then some (sign n) else none

negated : ℕ → ℤ
negated zero = pos 0
negated (suc n) = negsuc n

unfoldable pub parse_int : Str → Option ℤ
unfolding unsigned bounded negated
parse_int [] = none
parse_int (c ∷ rest) =
    if (c ∷ []) == str "-"
    then bounded (2 ^ 63 + 1) negated (unsigned rest)
    else bounded (2 ^ 63) pos (unsigned (if (c ∷ []) == str "+" then rest else c ∷ rest))

-- `strings.TrimPrefix` where there is the prefix.
unfoldable pub strip_prefix : Str → Str → Option Str
strip_prefix [] s = some s
strip_prefix (p ∷ prefix) [] = none
strip_prefix (p ∷ prefix) (c ∷ s) =
    let rest = strip_prefix prefix s in if (p ∷ []) == (c ∷ []) then rest else none

-- The code that a directory's name tells, 0 where it tells none.
unfoldable pub named_code : Str → ℤ
named_code name = elim (strip_prefix (str "code-") name) [
  | none ↦ pos 0
  | some digits ↦ elim (parse_int digits) [ none ↦ pos 0 | some n ↦ n ]
]

-- The fields of one item, by what is known of the directory.
unfoldable pub plain_item : Str → ℤ → Str → Str → InstalledVersion
plain_item path code version executable = record {
  path = path;
  code = code;
  version = version;
  executable = executable;
  active = false;
}

unfoldable pub item_from : Option ActivePointer → Entry → Option VersionMeta → InstalledVersion
item_from active e (some meta) = plain_item (path_of e) meta.code meta.version meta.executable
item_from none e none = plain_item (path_of e) (named_code e.name) [] []
item_from (some a) e none =
    if a.path == path_of e
    then plain_item (path_of e) a.code a.version a.executable
    else plain_item (path_of e) (named_code e.name) [] []

unfoldable pub mark_active : Option ActivePointer → InstalledVersion → InstalledVersion
mark_active none item = item
mark_active (some a) item = record item { active = eqb_ℤ item.code a.code }

unfoldable pub item_of : Option ActivePointer → Entry → InstalledVersion
item_of active e = mark_active active (item_from active e e.meta)

-- Hidden entries and files are no versions.
hidden : Str → Bool
hidden [] = false
hidden (c ∷ rest) = (c ∷ []) == str "."

unfoldable pub is_version : Entry → Bool
unfolding hidden
is_version e = e.is_dir && not (hidden e.name)

unfoldable pub by_code : InstalledVersion → InstalledVersion → Bool
by_code a b = ltb_ℤ a.code b.code

-- `ActiveCode`, 0 without a pointer.
active_code_of : Option ActivePointer → ℤ
active_code_of none = pos 0
active_code_of (some a) = a.code

unfoldable pub list_installed : Tree → InstalledList
unfolding active_code_of
list_installed t = record {
  active_code = active_code_of t.active;
  versions = sort_by by_code (map (item_of t.active) (keep is_version t.entries));
}
