-- ===== src/Examples/PublishRuns.antt =====
-- The newest of two versions is removed from an index on one backend.
use relkit.Prelude.{
  ◌≡◌, refl, true, false, Option, none, some, List, [], ◌∷◌, ◌++◌, ℤ, pos, Str, str,
}
use relkit.Prelude.Results.{ok}
use relkit.Rup.{VersionNode, Index}
use relkit.Wire.{Wire, Envelope}
use relkit.Envelope.{Signer, index_schema, envelope_schema, ed25519}
use relkit.Publish.{Backend}
use relkit.Publish.Unpublish.{Config, unpublish_on_backends}
use relkit.Publish.Removed.{IsRemoved, unpublish-IsRemoved}

abbrev node : Str → ℤ → VersionNode
node version code = record {
  version = version;
  code = code;
  min_from = pos 0;
  yanked = false;
  manifest = none;
  released_at = [];
  notes = [];
  notes_url = [];
  resolution_digest = [];
  operator_deployment_id = [];
  resolution_identity = [];
}

abbrev index_of : ℤ → List (Option VersionNode) → Index
index_of sequence versions = record {
  schema = index_schema;
  product = str "p";
  channel = str "c";
  sequence = sequence;
  generated_at = str "t";
  min_supported = pos 0;
  has_min_supported = false;
  expires_at = [];
  versions = versions;
}

abbrev published : Index
published = index_of (pos 5) (some (node (str "1") (pos 1)) ∷ some (node (str "2") (pos 2)) ∷ [])

abbrev rebuilt : Index
rebuilt = index_of (pos 1000) (some (node (str "1") (pos 1)) ∷ [])

abbrev letter : Envelope
letter = record {
  schema = envelope_schema;
  payload = str "x";
  signatures = some (record { key_id = str "k"; alg = ed25519; sig = [] }) ∷ [];
}

abbrev toy : Wire
toy = record {
  verify = λ key message sig. true;
  sign = λ seed message. [];
  public_key = λ seed. seed;
  sha256_hex = λ bytes. bytes;
  unmarshal_envelope = λ bytes. some letter;
  unmarshal_index = λ bytes. some published;
  unmarshal_fallback = λ bytes. none;
  unmarshal_directory = λ bytes. none;
  unmarshal_manifest = λ bytes. none;
  marshal_index = λ index. str "x";
  marshal_directory = λ doc. str "d";
}

abbrev config : Config
config = record {
  product = str "p";
  channel = str "c";
  trusted = none;
  signers = record { key_id = str "k"; seed = str "s" } ∷ [];
  wire = toy;
  marshal_envelope = λ env. str "new";
}

abbrev mirror : Backend
mirror = record {
  backend_name = str "m";
  writable = true;
  stored = ok (some (str "old"));
  accepts = true;
}

removed_two :
    (unpublish_on_backends config (str "2") false (str "t") (mirror ∷ [])).0 ≡ ok (some rebuilt)
unfolding unpublish_on_backends relkit.Publish.Unpublish.remove_from
    relkit.Publish.read_existing_indexes relkit.Publish.choose_index relkit.Publish.read_all
    relkit.Publish.read_index relkit.Publish.read_bytes relkit.Publish.of_this_channel
    relkit.Envelope.open_envelope relkit.Envelope.verified_envelope_payload relkit.Prelude.◌==◌
    relkit.Envelope.verified_payload relkit.Prelude.Dicts.lookup relkit.Publish.trusted_keys
    relkit.Publish.add_signers relkit.Prelude.Dicts.insert relkit.Publish.add_parsed
    relkit.Chain.Reachability.sorted_codes relkit.Chain.Reachability.sorted_keys
    relkit.Chain.Reachability.validate_reachability relkit.Chain.find_head relkit.Chain.reaches_head
    relkit.Chain.resolve_upgrade_path relkit.Envelope.accept_envelope
    relkit.Envelope.normalize_index relkit.Envelope.seal relkit.Prelude.◌+ℤ◌
    relkit.Prelude.Sorting.insert_by relkit.Prelude.Sorting.sort_by relkit.Prelude.ltb_str
    relkit.Publish.Unpublish.checked_kept relkit.Publish.Unpublish.checked_split
    relkit.Publish.Unpublish.clients_can_verify relkit.Publish.Unpublish.commit
    relkit.Publish.Unpublish.first_removed relkit.Publish.Unpublish.kept_versions
    relkit.Publish.Unpublish.put_pointer relkit.Publish.Unpublish.rebuild
    relkit.Publish.Unpublish.seal_and_commit relkit.Publish.Unpublish.split_node
    relkit.Publish.Unpublish.split_rest relkit.Publish.Unpublish.split_versions
    relkit.Publish.Unpublish.validate_index relkit.Publish.Unpublish.validate_new
    relkit.Publish.Unpublish.write_index relkit.Publish.backends_agree relkit.Publish.bytes_of
    relkit.Publish.check_identifier relkit.Publish.clone_version_nodes relkit.Publish.empty_index
    relkit.Publish.index_with relkit.Publish.min_supported_ptr relkit.Publish.new_index
    relkit.Publish.newest_index relkit.Publish.next_sequence relkit.Publish.floored
    relkit.Publish.wrap_int relkit.Publish.sorted_nodes
removed_two = refl

unpublish-IsRemoved_example : IsRemoved config (str "2") (str "t") (mirror ∷ []) rebuilt
unpublish-IsRemoved_example =
    unpublish-IsRemoved config (str "2") (str "t") (mirror ∷ []) rebuilt removed_two
