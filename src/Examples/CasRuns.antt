-- ===== src/Examples/CasRuns.antt =====
-- A version is pruned whose only blob nothing else names.
use relkit.Prelude.{
  ◌≡◌, refl, true, false, Option, none, some, List, [], ◌∷◌, ◌++◌, ℤ, pos, Str, str, ◌==◌,
  if◌then◌else◌, In, here,
}
use relkit.Prelude.Results.{ok}
use relkit.Rup.{VersionNode, Manifest, payload}
use relkit.Wire.{Wire}
use relkit.Publish.CasGc.{Shelf, Bucket, sweep_orphan_cas}
use relkit.Publish.Orphans.{IsOrphan, sweep_orphan_cas-IsOrphan}

abbrev node : Str → VersionNode
node version = record {
  version = version;
  code = pos 1;
  min_from = pos 0;
  yanked = false;
  manifest = none;
  released_at = [];
  notes = [];
  notes_url = [];
  resolution_digest = [];
  operator_deployment_id = [];
  resolution_identity = [];
}

abbrev sixteen : Str
sixteen = str "0123456789abcdef"

abbrev digest : Str
digest = sixteen ++ sixteen ++ sixteen ++ sixteen

abbrev contents : Manifest
contents = record {
  schema = [];
  product = str "p";
  version = str "1";
  code = pos 1;
  released_at = [];
  notes = [];
  artifacts =
      some (record {
        id = [];
        filename = str "app";
        size = pos 1;
        sha256 = digest;
        kind = payload;
        selectors = [];
        urls = [];
      })
      ∷ [];
}

abbrev toy : Wire
toy = record {
  verify = λ key message sig. true;
  sign = λ seed message. [];
  public_key = λ seed. [];
  sha256_hex = λ bytes. [];
  unmarshal_envelope = λ raw. none;
  unmarshal_index = λ raw. none;
  unmarshal_fallback = λ raw. none;
  unmarshal_directory = λ raw. none;
  unmarshal_manifest = λ raw. some contents;
  marshal_index = λ index. [];
  marshal_directory = λ doc. [];
}

abbrev shelf : Shelf
shelf = record {
  product = str "p";
  channels = str "c" ∷ [];
  wire = toy;
  bucket = record {
    get = λ key. if key == str "manifest/p/1.pb" then ok (str "m") else ok [];
    deletes = λ key. true;
  };
}

one_deleted :
    sweep_orphan_cas shelf none (some (node (str "1")) ∷ []) [] ≡ (str "cas/" ++ digest) ∷ []
unfolding sweep_orphan_cas relkit.Publish.CasGc.delete_orphans
    relkit.Publish.CasGc.digests_from_nodes ◌==◌ relkit.Publish.CasGc.add_all
    relkit.Publish.CasGc.digests_from_manifest relkit.Publish.CasGc.digests_of
    relkit.Publish.CasGc.decode_manifest_bytes relkit.Publish.CasGc.some_bytes
    relkit.Publish.CasGc.manifest_key relkit.Prelude.Text.clean
    relkit.Publish.CasGc.artifact_digests relkit.Prelude.Sets.add_key
    relkit.Publish.CasGc.live_artifact_digests relkit.Publish.CasGc.mark_channels
    relkit.Publish.CasGc.mark_index relkit.Publish.CasGc.index_on relkit.Prelude.Sets.contains
    relkit.Prelude.Text.clean_parts relkit.Prelude.Text.clean_step relkit.Prelude.Text.climb
    relkit.Prelude.Text.elements relkit.Prelude.Text.has_prefix relkit.Prelude.Text.join
    relkit.Prelude.Text.onto_first relkit.Prelude.Text.render relkit.Prelude.Text.split
    relkit.Prelude.Text.to_lower relkit.Prelude.Text.trim_left_space relkit.Prelude.Text.trim_space
    relkit.Publish.CasGc.decode_payload relkit.Publish.CasGc.decode_stored
    relkit.Publish.CasGc.delete_key relkit.Publish.CasGc.index_key
    relkit.Publish.CasGc.load_index_document relkit.Publish.CasGc.mark_nodes
    relkit.Publish.CasGc.mark_version relkit.Publish.CasGc.staged_digests relkit.Store.Keys.cas_key
one_deleted = refl

key_is_deleted :
    In (str "cas/" ++ digest) (sweep_orphan_cas shelf none (some (node (str "1")) ∷ []) [])
unfolding sweep_orphan_cas relkit.Publish.CasGc.delete_orphans
    relkit.Publish.CasGc.digests_from_nodes ◌==◌ relkit.Publish.CasGc.add_all
    relkit.Publish.CasGc.digests_from_manifest relkit.Publish.CasGc.digests_of
    relkit.Publish.CasGc.decode_manifest_bytes relkit.Publish.CasGc.some_bytes
    relkit.Publish.CasGc.manifest_key relkit.Prelude.Text.clean
    relkit.Publish.CasGc.artifact_digests relkit.Prelude.Sets.add_key
    relkit.Publish.CasGc.live_artifact_digests relkit.Publish.CasGc.mark_channels
    relkit.Publish.CasGc.mark_index relkit.Publish.CasGc.index_on relkit.Prelude.Sets.contains
    relkit.Prelude.Text.clean_parts relkit.Prelude.Text.clean_step relkit.Prelude.Text.climb
    relkit.Prelude.Text.elements relkit.Prelude.Text.has_prefix relkit.Prelude.Text.join
    relkit.Prelude.Text.onto_first relkit.Prelude.Text.render relkit.Prelude.Text.split
    relkit.Prelude.Text.to_lower relkit.Prelude.Text.trim_left_space relkit.Prelude.Text.trim_space
    relkit.Publish.CasGc.decode_payload relkit.Publish.CasGc.decode_stored
    relkit.Publish.CasGc.delete_key relkit.Publish.CasGc.index_key
    relkit.Publish.CasGc.load_index_document relkit.Publish.CasGc.mark_nodes
    relkit.Publish.CasGc.mark_version relkit.Publish.CasGc.staged_digests relkit.Store.Keys.cas_key
key_is_deleted = here refl

sweep_orphan_cas-IsOrphan_example :
    IsOrphan shelf none (some (node (str "1")) ∷ []) (str "cas/" ++ digest)
sweep_orphan_cas-IsOrphan_example =
    sweep_orphan_cas-IsOrphan shelf none (some (node (str "1")) ∷ []) [] (str "cas/" ++ digest)
      key_is_deleted
