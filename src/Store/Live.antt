-- ===== src/Store/Live.antt =====
-- The keys that a collection keeps (`gcOnce`, its first half): what the published indexes name, what
-- the latest pointers name, and what the live manifests name.
use relkit.Prelude.{
  eqb_ℕ, suc, ℕ, Bool, true, false, Option, none, some, List, [], ◌∷◌, Str, str, if◌then◌else◌, any,
  keep, is_empty,
}
use relkit.Prelude.Text.{has_prefix}
use relkit.Prelude.Sets.{add_key}
use relkit.Prelude.Results.{Result, ok, err}
use relkit.Rup.{Manifest, Artifact}
use relkit.Store.Keys.{
  File, Root, Reader, local_key_from_url, is_published_index_file, cas_key, list_files_under,
  read_index_manifest_urls, read_manifest_doc, read_file,
}

pub data GcError : Type 0 where
  no_index_directory no_index_files all_failed no_references : GcError
  broken_manifest manifest_without_artifacts manifest_without_urls : Str → GcError

unfoldable pub add_some : Option Str → List Str → List Str
add_some none live = live
add_some (some key) live = add_key key live

unfoldable pub add_urls : Reader → List Str → List Str → List Str
add_urls r [] live = live
add_urls r (u ∷ urls) live = add_urls r urls (add_some (local_key_from_url r u) live)

-- The loop over the indexes: the keys, and how many indexes parsed.
pub record Scan : Type 0 where
  pub parsed : ℕ
  pub keys : List Str

unfoldable pub scan_urls : Reader → Option (List Str) → Scan → Scan
scan_urls r none scan = scan
scan_urls r (some urls) scan = record { parsed = suc scan.parsed; keys = add_urls r urls scan.keys }

unfoldable pub scan_indexes : Reader → Root → List File → Scan → Scan
scan_indexes r root [] scan = scan
scan_indexes r root (f ∷ files) scan = scan_indexes r root files (
    if is_published_index_file f.name
    then scan_urls r (read_index_manifest_urls r root f.name) scan
    else scan)

-- The loop over the latest pointers: of what they name, the artifacts.
unfoldable pub add_artifact_key : Option Str → List Str → List Str
add_artifact_key none live = live
add_artifact_key (some key) live =
    if has_prefix key (str "artifact/") then add_key key live else live

unfoldable pub add_latest_urls : Reader → List Str → List Str → List Str
add_latest_urls r [] live = live
add_latest_urls r (u ∷ urls) live =
    add_latest_urls r urls (add_artifact_key (local_key_from_url r u) live)

unfoldable pub latest_of : Reader → Option Str → List Str
latest_of r none = []
latest_of r (some raw) = elim (r.latest_urls raw) [ none ↦ [] | some urls ↦ urls ]

unfoldable pub add_latest_files : Reader → Root → List File → List Str → List Str
add_latest_files r root [] live = live
add_latest_files r root (f ∷ files) live =
    add_latest_files r root files (add_latest_urls r (latest_of r (read_file root f.name)) live)

unfoldable pub add_latest : Reader → Root → Option (List File) → List Str → List Str
add_latest r root none live = live
add_latest r root (some files) live = add_latest_files r root files live

-- The artifacts of one manifest: their URLs and their digests. The flag is `gotURL`.
unfoldable pub has_local : Reader → List Str → Bool
has_local r urls = any (λ u. elim (local_key_from_url r u) [ none ↦ false | some _ ↦ true ]) urls

unfoldable pub got_url : Reader → List (Option Artifact) → Bool
got_url r [] = false
got_url r (none ∷ rest) = got_url r rest
got_url r (some a ∷ rest) = let more = got_url r rest in if has_local r a.urls then true else more

unfoldable pub add_artifacts : Reader → List (Option Artifact) → List Str → List Str
add_artifacts r [] live = live
add_artifacts r (none ∷ rest) live = add_artifacts r rest live
add_artifacts r (some a ∷ rest) live =
    add_artifacts r rest (add_some (cas_key a.sha256) (add_urls r a.urls live))

unfoldable pub expand : Reader → Str → Option Manifest → List Str → Result GcError (List Str)
expand r key none live = err (broken_manifest key)
expand r key (some doc) live =
    if is_empty doc.artifacts
    then err (manifest_without_artifacts key)
    else if got_url r doc.artifacts
    then ok (add_artifacts r doc.artifacts live)
    else err (manifest_without_urls key)

-- The loop over the live manifests, which stops at the first that is broken.
unfoldable pub expand_all : Reader → Root → List Str → List Str → Result GcError (List Str)
expand_all r root [] live = ok live
expand_all r root (key ∷ keys) live = elim (expand r key (read_manifest_doc r root key) live) [
  | err e ↦ err e
  | ok more ↦ expand_all r root keys more
]

unfoldable pub manifest_keys : List Str → List Str
manifest_keys live = keep (λ k. has_prefix k (str "manifest/")) live

-- The checks after the loop over the indexes, and the two later loops.
unfoldable pub live_after_scan : Reader → Root → Scan → Result GcError (List Str)
live_after_scan r root scan =
    if eqb_ℕ scan.parsed 0
    then err all_failed
    else if is_empty scan.keys
    then err no_references
    else let live = add_latest r root (list_files_under root (str "latest")) scan.keys in
      expand_all r root (manifest_keys live) live

unfoldable pub nothing_scanned : Scan
nothing_scanned = record { parsed = 0; keys = [] }

unfoldable pub live_from : Reader → Root → Option (List File) → Result GcError (List Str)
live_from r root none = err no_index_directory
live_from r root (some []) = err no_index_files
live_from r root (some (f ∷ files)) =
    live_after_scan r root (scan_indexes r root (f ∷ files) nothing_scanned)

unfoldable pub live_keys : Reader → Root → Result GcError (List Str)
live_keys r root = live_from r root (list_files_under root (str "index"))
