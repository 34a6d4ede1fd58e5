-- ===== src/Examples/StoreRuns.antt =====
-- A collection in a store of one published index, which names one manifest with one artifact, beside
-- an artifact that nothing names.
use relkit.Prelude.{
  ◌↔◌, ◌≡◌, refl, true, false, Option, none, some, List, [], ◌∷◌, ℤ, pos, Str, str, In, here, there,
  sym, ◌∙◌, false≢true,
}
use relkit.Prelude.Results.{ok}
use relkit.Rup.{VersionNode, Index, Artifact, Manifest, binary}
use relkit.Wire.{Wire}
use relkit.Envelope.{envelope_schema}
use relkit.Store.Keys.{File, Dir, Root, Reader}
use relkit.Store.Referenced.{IsNeeded, by_index, by_url, part}
use relkit.Store.Needed.{live_keys-IsNeeded}
use relkit.Prelude.Sets.{contains, In-contains}
use relkit.Store.Live.{live_keys}
use relkit.Store.Kept.{gc_once-keeps}
use relkit.Store.Reclaimed.{IsGarbage, gc_once-reclaims}
use relkit.Store.Sweep.{cas_protected, is_temp, GcState, new_gc_state, gc_once, GcResult}

abbrev node : VersionNode
node = record {
  version = str "1.0.0";
  code = pos 1;
  min_from = pos 0;
  yanked = false;
  manifest = some (record { sha256 = []; size = pos 0; urls = str "/manifest/app/1" ∷ [] });
  released_at = [];
  notes = [];
  notes_url = [];
  resolution_digest = [];
  operator_deployment_id = [];
  resolution_identity = [];
}

abbrev catalogue : Index
catalogue = record {
  schema = [];
  product = str "app";
  channel = str "stable";
  sequence = pos 1;
  generated_at = [];
  min_supported = pos 0;
  has_min_supported = false;
  expires_at = [];
  versions = some node ∷ [];
}

abbrev app : Artifact
app = record {
  id = [];
  filename = str "app";
  size = pos 1;
  sha256 = [];
  kind = binary;
  selectors = [];
  urls = str "/artifact/app/1" ∷ [];
}

abbrev contents : Manifest
contents = record {
  schema = [];
  product = str "app";
  version = str "1.0.0";
  code = pos 1;
  released_at = [];
  notes = [];
  artifacts = some app ∷ [];
}

abbrev toy : Wire
toy = record {
  verify = λ key message sig. true;
  sign = λ seed message. [];
  public_key = λ seed. [];
  sha256_hex = λ bytes. [];
  unmarshal_envelope =
      λ raw. some (record { schema = envelope_schema; payload = raw; signatures = [] });
  unmarshal_index = λ raw. some catalogue;
  unmarshal_fallback = λ raw. none;
  unmarshal_directory = λ raw. none;
  unmarshal_manifest = λ raw. some contents;
  marshal_index = λ index. [];
  marshal_directory = λ doc. [];
}

abbrev reader : Reader
reader = record { url_path = λ u. some u; latest_urls = λ raw. none; wire = toy }

abbrev file : Str → File
file name = record { name = name; content = some []; mod_time = pos 0; held = false }

abbrev dir : Str → Dir
dir name = record { dir_name = name; dir_held = false }

abbrev published : File
published = file (str "index/app/stable.pb")

abbrev named : File
named = file (str "artifact/app/1")

abbrev orphan : File
orphan = file (str "artifact/app/0")

abbrev stored : Root
stored = record {
  files = published ∷ file (str "manifest/app/1") ∷ named ∷ orphan ∷ [];
  dirs = dir (str "index") ∷ dir (str "artifact") ∷ dir (str "manifest") ∷ [];
}

abbrev gc : Option GcState
gc =
    some (record {
      enabled = true;
      interval = pos 1;
      debounce = pos 1;
      cas_grace = pos 1;
      leases = [];
    })

gc_once-keeps_example : In named (gc_once reader gc (pos 5) stored).1.files
unfolding relkit.Store.Keys.is_published_index_file relkit.Prelude.Text.has_prefix
    relkit.Prelude.Text.has_suffix relkit.Prelude.Text.split relkit.Prelude.Text.trim_suffix
    relkit.Prelude.◌==◌ relkit.Store.Keys.read_index_doc relkit.Store.Keys.local_key_from_url
    relkit.Prelude.Text.clean relkit.Store.Keys.read_manifest_doc relkit.Store.Sweep.is_temp
gc_once-keeps_example =
    gc_once-keeps reader gc (pos 5) stored named (there (there (here refl)))
      (part (str "manifest/app/1") contents app
        (by_index published catalogue node
          (record { sha256 = []; size = pos 0; urls = str "/manifest/app/1" ∷ [] })
          (str "/manifest/app/1") (here refl) refl refl (here refl) refl (here refl) refl)
        refl refl (here refl) (by_url (str "/artifact/app/1") (here refl) refl))
      refl

abbrev kept_keys : List Str
kept_keys = str "artifact/app/1" ∷ str "manifest/app/1" ∷ []

stored_keys : live_keys reader stored ≡ ok kept_keys
unfolding live_keys relkit.Store.Live.live_from relkit.Store.Keys.list_files_under
    relkit.Prelude.◌==◌ relkit.Prelude.Text.has_prefix relkit.Store.Live.live_after_scan
    relkit.Store.Live.scan_indexes relkit.Store.Keys.is_published_index_file
    relkit.Prelude.Text.has_suffix relkit.Prelude.Text.split relkit.Prelude.Text.trim_suffix
    relkit.Store.Live.scan_urls relkit.Store.Keys.read_index_manifest_urls
    relkit.Store.Live.nothing_scanned relkit.Store.Live.add_urls relkit.Store.Live.add_some
    relkit.Store.Keys.local_key_from_url relkit.Prelude.Text.clean relkit.Prelude.Text.clean_parts
    relkit.Prelude.Text.clean_step relkit.Prelude.Text.climb relkit.Prelude.Text.join
    relkit.Prelude.Text.onto_first relkit.Prelude.Text.skip relkit.Prelude.Text.to_lower
    relkit.Prelude.Text.trim_left_space relkit.Prelude.Text.trim_prefix
    relkit.Prelude.Text.trim_space relkit.Store.Keys.cas_key relkit.Store.Keys.decode_index
    relkit.Store.Keys.decode_manifest relkit.Store.Keys.index_of_envelope
    relkit.Store.Keys.index_urls relkit.Store.Keys.key_of_path relkit.Store.Keys.manifest_urls
    relkit.Store.Keys.read_file relkit.Store.Keys.read_in relkit.Store.Keys.read_index_doc
    relkit.Store.Keys.read_manifest_doc relkit.Store.Keys.ref_urls relkit.Store.Keys.some_urls
    relkit.Store.Live.add_artifact_key relkit.Store.Live.add_artifacts relkit.Prelude.Sets.add_key
    relkit.Store.Live.add_latest relkit.Store.Live.add_latest_files
    relkit.Store.Live.add_latest_urls contains relkit.Store.Live.expand relkit.Store.Live.expand_all
    relkit.Store.Live.got_url relkit.Store.Live.has_local relkit.Store.Live.latest_of
    relkit.Store.Live.manifest_keys
stored_keys = refl

live_keys-IsNeeded_example :
    In (str "artifact/app/1") kept_keys ↔ IsNeeded reader stored (str "artifact/app/1")
live_keys-IsNeeded_example =
    live_keys-IsNeeded reader stored kept_keys (str "artifact/app/1") stored_keys

orphan_is_unnamed : contains orphan.name kept_keys ≡ false
unfolding contains relkit.Prelude.◌==◌
orphan_is_unnamed = refl

orphan_is_unprotected : cas_protected gc orphan.name orphan.mod_time (pos 5) ≡ false
unfolding cas_protected relkit.Store.Sweep.is_leased relkit.Prelude.Dicts.lookup relkit.Prelude.◌-ℤ◌
orphan_is_unprotected = refl

orphan_is_no_temp : is_temp orphan.name ≡ false
unfolding is_temp relkit.Prelude.Text.has_suffix
orphan_is_no_temp = refl

orphan-IsGarbage : IsGarbage reader gc (pos 5) stored orphan
orphan-IsGarbage = record {
  not_needed = λ h. false≢true (
      sym orphan_is_unnamed
      ∙ In-contains orphan.name kept_keys
          ((live_keys-IsNeeded reader stored kept_keys orphan.name stored_keys).1 h));
  not_temp = orphan_is_no_temp;
  not_protected = orphan_is_unprotected;
  not_held = refl;
}

round_succeeds :
    (gc_once reader gc (pos 5) stored).0
    ≡ ok (record { live = 2; files_removed = 1; dirs_removed = 0 })
unfolding gc_once relkit.Store.Sweep.gc_with live_keys relkit.Store.Live.live_from
    relkit.Store.Keys.list_files_under relkit.Prelude.◌==◌ relkit.Prelude.Text.has_prefix
    relkit.Store.Live.live_after_scan relkit.Store.Live.scan_indexes
    relkit.Store.Keys.is_published_index_file relkit.Prelude.Text.has_suffix
    relkit.Prelude.Text.split relkit.Prelude.Text.trim_suffix relkit.Store.Live.scan_urls
    relkit.Store.Keys.read_index_manifest_urls relkit.Store.Live.nothing_scanned
    relkit.Store.Live.add_urls relkit.Prelude.Dicts.lookup relkit.Prelude.◌-ℤ◌
    relkit.Prelude.Text.clean relkit.Prelude.Text.clean_parts relkit.Prelude.Text.clean_step
    relkit.Prelude.Text.climb relkit.Prelude.Text.join relkit.Prelude.Text.onto_first
    relkit.Prelude.Text.skip relkit.Prelude.Text.to_lower relkit.Prelude.Text.trim_left_space
    relkit.Prelude.Text.trim_prefix relkit.Prelude.Text.trim_space relkit.Store.Keys.cas_key
    relkit.Store.Keys.decode_index relkit.Store.Keys.decode_manifest
    relkit.Store.Keys.index_of_envelope relkit.Store.Keys.index_urls relkit.Store.Keys.key_of_path
    relkit.Store.Keys.local_key_from_url relkit.Store.Keys.manifest_urls relkit.Store.Keys.read_file
    relkit.Store.Keys.read_in relkit.Store.Keys.read_index_doc relkit.Store.Keys.read_manifest_doc
    relkit.Store.Keys.ref_urls relkit.Store.Keys.some_urls relkit.Store.Live.add_artifact_key
    relkit.Store.Live.add_artifacts relkit.Prelude.Sets.add_key relkit.Store.Live.add_latest
    relkit.Store.Live.add_latest_files relkit.Store.Live.add_latest_urls relkit.Store.Live.add_some
    contains relkit.Store.Live.expand relkit.Store.Live.expand_all relkit.Store.Live.got_url
    relkit.Store.Live.has_local relkit.Store.Live.latest_of relkit.Store.Live.manifest_keys
    cas_protected relkit.Store.Sweep.count_removed relkit.Store.Sweep.goes
    relkit.Store.Sweep.is_bare relkit.Store.Sweep.is_child relkit.Store.Sweep.is_leased
    relkit.Store.Sweep.is_removed relkit.Store.Sweep.is_spared is_temp
    relkit.Store.Sweep.remove_bare relkit.Store.Sweep.remove_dir
    relkit.Store.Sweep.remove_empty_dirs relkit.Store.Sweep.sweep_listed
    relkit.Store.Sweep.sweep_prefixes relkit.Store.Sweep.swept_prefixes
    relkit.Store.Sweep.without_removed
round_succeeds = refl

gc_once-reclaims_example : ¬ In orphan (gc_once reader gc (pos 5) stored).1.files
unfolding relkit.Store.Sweep.swept_prefixes relkit.Prelude.◌==◌ relkit.Prelude.Text.has_prefix
gc_once-reclaims_example =
    gc_once-reclaims reader gc (pos 5) stored
      (record { live = 2; files_removed = 1; dirs_removed = 0 }) (str "artifact") orphan
      round_succeeds (there (here refl)) refl refl orphan-IsGarbage
