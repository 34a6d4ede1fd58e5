-- ===== src/Store/Referenced.antt =====
-- What a collection has to keep, told from the documents alone.
use relkit.Prelude.{true, some, List, Str, str, ◌≡◌, In}
use relkit.Prelude.Text.{has_prefix}
use relkit.Rup.{Index, Manifest, VersionNode, DigestRef, Artifact}
use relkit.Store.Keys.{
  File, Root, Reader, local_key_from_url, is_published_index_file, cas_key, list_files_under,
  read_index_doc, read_manifest_doc, read_file,
}

-- An artifact has the key as a place of its bytes.
pub data IsPlace (r : Reader) (a : Artifact) (k : Str) : Type 0 where
  by_url : (u : Str) → In u a.urls → local_key_from_url r u ≡ some k → IsPlace r a k
  by_digest : cas_key a.sha256 ≡ some k → IsPlace r a k

module _ (r : Reader) (root : Root) where
  -- A published index names the key as the place of a manifest.
  pub data IsIndexed (k : Str) : Type 0 where
    by_index :
        (f : File) (index : Index) (v : VersionNode) (m : DigestRef) (u : Str)
        → In f root.files
        → is_published_index_file f.name ≡ true
        → read_index_doc r root f.name ≡ some index
        → In (some v) index.versions
        → v.manifest ≡ some m
        → In u m.urls
        → local_key_from_url r u ≡ some k
        → IsIndexed k

  -- A latest pointer names the key as a place of an artifact.
  pub data IsLatest (k : Str) : Type 0 where
    by_pointer :
        (files : List File) (f : File) (raw : Str) (urls : List Str) (u : Str)
        → list_files_under root (str "latest") ≡ some files
        → In f files
        → read_file root f.name ≡ some raw
        → r.latest_urls raw ≡ some urls
        → In u urls
        → local_key_from_url r u ≡ some k
        → has_prefix k (str "artifact/") ≡ true
        → IsLatest k

  pub data IsNeeded (k : Str) : Type 0 where
    indexed : IsIndexed k → IsNeeded k
    latest : IsLatest k → IsNeeded k
    part :
        (m : Str) (doc : Manifest) (a : Artifact)
        → IsIndexed m
        → has_prefix m (str "manifest/") ≡ true
        → read_manifest_doc r root m ≡ some doc
        → In (some a) doc.artifacts
        → IsPlace r a k
        → IsNeeded k
