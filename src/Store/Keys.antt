-- ===== src/Store/Keys.antt =====
-- The files below the server's root and the keys that a URL, an index or a digest names.
use relkit.Prelude.{
  ℕ, Bool, true, false, ◌&&◌, ◌||◌, Option, none, some, List, [], ◌∷◌, ◌++◌, ℤ, Str, str, ◌==◌,
  eqb_ℕ, leb, if◌then◌else◌, any, keep, length,
}
use relkit.Prelude.Text.{has_prefix, trim_prefix, has_suffix, trim_suffix, split, clean, trim_space}
use relkit.Prelude.Text.{to_lower}
use relkit.Rup.{DigestRef, Index, Manifest, VersionNode}
use relkit.Wire.{Wire, Envelope}
use relkit.Envelope.{envelope_schema}

-- A file: its path below the root, its bytes where it can be read, its modification time, and
-- whether the system refuses to remove it.
pub record File : Type 0 where
  pub name : Str
  pub content : Option Str
  pub mod_time : ℤ
  pub held : Bool

pub record Dir : Type 0 where
  pub dir_name : Str
  pub dir_held : Bool

-- The directories stand in the order in which `fs.WalkDir` meets them.
pub record Root : Type 0 where
  pub files : List File
  pub dirs : List Dir

-- What the server takes from `net/url` and from the protobuf and JSON decoders: the path of a URL
-- that parses, and the URLs of the artifacts of a `latest/` document that decodes.
pub record Reader : Type 0 where
  pub url_path : Str → Option Str
  pub latest_urls : Str → Option (List Str)
  pub wire : Wire

-- `localKeyFromURL`
is_local : Str → Bool
is_local key = has_prefix key (str "manifest/") || has_prefix key (str "artifact/")

is_outside : Str → Bool
is_outside key = key == [] || key == str "." || key == str ".." || has_prefix key (str "../")

unfoldable pub key_of_path : Str → Option Str
unfolding is_local is_outside
key_of_path path =
    let key = trim_prefix (clean path) (str "/") in
    if is_outside key then none else if is_local key then some key else none

unfoldable pub local_key_from_url : Reader → Str → Option Str
unfolding key_of_path
local_key_from_url r raw = elim (r.url_path raw) [ none ↦ none | some path ↦ key_of_path path ]

-- `isPublishedIndexFile`
two_segments : List Str → Bool
two_segments [] = false
two_segments (a ∷ []) = false
two_segments (a ∷ b ∷ []) = if a == [] || b == [] then false else true
two_segments (a ∷ b ∷ c ∷ more) = false

unfoldable pub is_published_index_file : Str → Bool
unfolding two_segments
is_published_index_file name =
    if has_prefix name (str "index/") && has_suffix name (str ".pb")
    then two_segments (split (trim_suffix (trim_prefix name (str "index/")) (str ".pb")) 47)
    else false

-- `model.CasKey`
is_hex : ℕ → Bool
is_hex c = (leb 48 c && leb c 57) || (leb 97 c && leb c 102)

all_hex : Str → Bool
unfolding is_hex
all_hex [] = true
all_hex (c ∷ s) = is_hex c && all_hex s

unfoldable pub cas_key : Str → Option Str
unfolding all_hex
cas_key sha256 =
    let digest = to_lower (trim_space sha256) in
    if eqb_ℕ (length digest) 64 && all_hex digest then some (str "cas/" ++ digest) else none

-- `listFilesUnder`: an error where there is no such directory. That the walk fails below a directory
-- that is there, which ends the collection before anything of that directory is removed, is left out.
unfoldable pub list_files_under : Root → Str → Option (List File)
list_files_under root prefix =
    if any (λ d. d.dir_name == prefix) root.dirs
    then some (keep (λ f. has_prefix f.name (prefix ++ str "/")) root.files)
    else none

-- `root.ReadFile`
unfoldable pub read_in : Str → List File → Option Str
read_in name [] = none
read_in name (f ∷ rest) =
    let later = read_in name rest in if f.name == name then f.content else later

unfoldable pub read_file : Root → Str → Option Str
unfolding read_in
read_file root name = read_in name root.files

-- `readIndexDoc`, from the bytes of the file
unfoldable pub index_of_envelope : Reader → Envelope → Option Index
index_of_envelope r env =
    if env.schema == envelope_schema then r.wire.unmarshal_index env.payload else none

unfoldable pub decode_index : Reader → Str → Option Index
unfolding index_of_envelope
decode_index r raw = elim (r.wire.unmarshal_envelope raw) [
  | none ↦ none
  | some env ↦ index_of_envelope r env
]

unfoldable pub read_index_doc : Reader → Root → Str → Option Index
unfolding decode_index read_file
read_index_doc r root name = elim (read_file root name) [
  | none ↦ none
  | some raw ↦ decode_index r raw
]

-- `readIndexManifestURLs`: an index without versions, or whose versions have no manifest URL, is an
-- error.
unfoldable pub ref_urls : Option DigestRef → List Str
ref_urls none = []
ref_urls (some m) = m.urls

unfoldable pub manifest_urls : List (Option VersionNode) → List Str
manifest_urls [] = []
manifest_urls (none ∷ rest) = manifest_urls rest
manifest_urls (some v ∷ rest) = ref_urls v.manifest ++ manifest_urls rest

unfoldable pub some_urls : List Str → Option (List Str)
some_urls [] = none
some_urls (u ∷ urls) = some (u ∷ urls)

unfoldable pub index_urls : Option Index → Option (List Str)
unfolding manifest_urls some_urls ref_urls
index_urls none = none
index_urls (some index) = some_urls (manifest_urls index.versions)

unfoldable pub read_index_manifest_urls : Reader → Root → Str → Option (List Str)
unfolding index_urls read_index_doc
read_index_manifest_urls r root name = index_urls (read_index_doc r root name)

-- `readManifestDoc`
unfoldable pub decode_manifest : Reader → Option Str → Option Manifest
decode_manifest r none = none
decode_manifest r (some raw) = r.wire.unmarshal_manifest raw

unfoldable pub read_manifest_doc : Reader → Root → Str → Option Manifest
unfolding decode_manifest read_file
read_manifest_doc r root name = decode_manifest r (read_file root name)
