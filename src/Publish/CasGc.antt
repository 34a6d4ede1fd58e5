-- ===== src/Publish/CasGc.antt =====
-- internal/publish/cas_gc.go: the blobs that a publish deletes because nothing names them any more.
use relkit.Prelude.{
  Bool, Option, none, some, List, [], ◌∷◌, ◌++◌, Str, str, ◌==◌, if◌then◌else◌, is_empty,
}
use relkit.Prelude.Text.{clean}
use relkit.Prelude.Sets.{contains, add_key}
use relkit.Prelude.Results.{Result, ok, err}
use relkit.Rup.{Index, VersionNode, Manifest, Artifact}
use relkit.Wire.{Wire, Envelope}
use relkit.Store.Keys.{cas_key}

-- A backend that can delete: what it answers for a key, no bytes where there is nothing, and whether a
-- deletion succeeds.
pub record Bucket : Type 0 where
  pub get : Str → Result (Unit {0}) Str
  pub deletes : Str → Bool

-- What the product gives: its name and its channels, and the decoders.
pub record Shelf : Type 0 where
  pub product : Str
  pub channels : List Str
  pub wire : Wire
  pub bucket : Bucket

-- `ManifestKey` and `IndexKey` of api/rup/v2/codec.go
unfoldable pub manifest_key : Str → Str → Str
manifest_key product version = clean (str "manifest/" ++ product ++ str "/" ++ version ++ str ".pb")

unfoldable pub index_key : Str → Str → Str
index_key product channel = clean (str "index/" ++ product ++ str "/" ++ channel ++ str ".pb")

unfoldable pub some_bytes : Result (Unit {0}) Str → Option Str
some_bytes (err _) = none
some_bytes (ok []) = none
some_bytes (ok (b ∷ bytes)) = some (b ∷ bytes)

-- `loadIndexDocument`
unfoldable pub decode_payload : Wire → Option Envelope → Option Index
decode_payload w none = none
decode_payload w (some env) = w.unmarshal_index env.payload

unfoldable pub decode_stored : Wire → Option Str → Option Index
decode_stored w none = none
decode_stored w (some raw) = decode_payload w (w.unmarshal_envelope raw)

unfoldable pub load_index_document : Shelf → Str → Option Index
load_index_document s channel =
    decode_stored s.wire (some_bytes (s.bucket.get (index_key s.product channel)))

-- `digestsFromManifest`
unfoldable pub artifact_digests : List (Option Artifact) → List Str
artifact_digests [] = []
artifact_digests (none ∷ rest) = artifact_digests rest
artifact_digests (some a ∷ rest) =
    let more = artifact_digests rest in if a.sha256 == [] then more else a.sha256 ∷ more

unfoldable pub digests_of : Option Manifest → List Str
digests_of none = []
digests_of (some doc) = artifact_digests doc.artifacts

unfoldable pub decode_manifest_bytes : Wire → Option Str → Option Manifest
decode_manifest_bytes w none = none
decode_manifest_bytes w (some raw) = w.unmarshal_manifest raw

unfoldable pub digests_from_manifest : Shelf → Str → List Str
digests_from_manifest s version =
    digests_of
      (decode_manifest_bytes s.wire (some_bytes (s.bucket.get (manifest_key s.product version))))

unfoldable pub add_all : List Str → List Str → List Str
add_all [] live = live
add_all (d ∷ digests) live = add_all digests (add_key d live)

-- The versions that were seen, and the digests that live.
pub record Marking : Type 0 where
  pub seen : List Str
  pub live : List Str

unfoldable pub mark_version : Shelf → Str → Marking → Marking
mark_version s version m =
    if version == []
    then m
    else if contains version m.seen
    then m
    else record { seen = version ∷ m.seen; live = add_all (digests_from_manifest s version) m.live }

unfoldable pub mark_nodes : Shelf → List (Option VersionNode) → Marking → Marking
mark_nodes s [] m = m
mark_nodes s (none ∷ rest) m = mark_nodes s rest m
mark_nodes s (some node ∷ rest) m = mark_nodes s rest (mark_version s node.version m)

unfoldable pub mark_index : Shelf → Option Index → Marking → Marking
mark_index s none m = m
mark_index s (some index) m = mark_nodes s index.versions m

-- The index of a channel: the one just published, or the one that is stored.
unfoldable pub index_on : Shelf → Option Index → Str → Option Index
index_on s none channel = load_index_document s channel
index_on s (some published) channel =
    if channel == published.channel then some published else load_index_document s channel

unfoldable pub mark_channels : Shelf → Option Index → List Str → Marking → Marking
mark_channels s published [] m = m
mark_channels s published (channel ∷ channels) m =
    mark_channels s published channels (mark_index s (index_on s published channel) m)

-- `liveArtifactDigests`; `staged` are the digests of the staged artifacts.
unfoldable pub staged_digests : List Str → List Str
staged_digests [] = []
staged_digests (d ∷ rest) =
    let more = staged_digests rest in if d == [] then more else add_key d more

unfoldable pub live_artifact_digests : Shelf → Option Index → List Str → List Str
live_artifact_digests s published staged =
    (mark_channels s published s.channels (record { seen = []; live = staged_digests staged })).live

-- `digestsFromNodes`
unfoldable pub digests_from_nodes : Shelf → List (Option VersionNode) → List Str
digests_from_nodes s [] = []
digests_from_nodes s (none ∷ rest) = digests_from_nodes s rest
digests_from_nodes s (some node ∷ rest) =
    let more = digests_from_nodes s rest in
    if node.version == [] then more else add_all (digests_from_manifest s node.version) more

-- The loop over the digests: the keys that are deleted.
unfoldable pub delete_key : Shelf → Option Str → List Str → List Str
delete_key s none deleted = deleted
delete_key s (some key) deleted = if s.bucket.deletes key then key ∷ deleted else deleted

unfoldable pub delete_orphans : Shelf → List Str → List Str → List Str
delete_orphans s live [] = []
delete_orphans s live (d ∷ digests) =
    let more = delete_orphans s live digests in
    if contains d live then more else delete_key s (cas_key d) more

-- `sweepOrphanCAS` on one backend
unfoldable pub sweep_orphan_cas :
    Shelf → Option Index → List (Option VersionNode) → List Str → List Str
sweep_orphan_cas s published pruned staged =
    if is_empty pruned
    then []
    else delete_orphans s (live_artifact_digests s published staged) (digests_from_nodes s pruned)
