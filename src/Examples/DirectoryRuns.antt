-- ===== src/Examples/DirectoryRuns.antt =====
-- A directory is replaced on two backends.
use relkit.Prelude.{◌≡◌, refl, true, false, Option, none, some, List, [], ◌∷◌, ℤ, pos, Str, str}
use relkit.Prelude.Results.{ok}
use relkit.Rup.{UpdateDirectory, DirectoryService}
use relkit.Wire.{Wire, Envelope}
use relkit.Envelope.{directory_schema, envelope_schema, ed25519}
use relkit.Publish.{Backend}
use relkit.Directory.{Setup, SetOptions, ServiceInput, set_directory}
use relkit.Directory.Agreed.{IsAgreed, set_directory-IsAgreed}

abbrev directory_at : ℤ → List (Option DirectoryService) → UpdateDirectory
directory_at sequence services = record {
  schema = directory_schema;
  product = str "p";
  directory_sequence = sequence;
  updated_at = str "t";
  services = services;
  runtime_profile = none;
}

abbrev letter : Envelope
letter = record {
  schema = envelope_schema;
  payload = str "x";
  signatures = some (record { key_id = str "k"; alg = ed25519; sig = [] }) ∷ [];
}

abbrev toy : Wire
toy = record {
  verify = λ key message sig. true;
  sign = λ seed message. [];
  public_key = λ seed. seed;
  sha256_hex = λ bytes. bytes;
  unmarshal_envelope = λ bytes. some letter;
  unmarshal_index = λ bytes. none;
  unmarshal_fallback = λ bytes. none;
  unmarshal_directory = λ bytes. some (directory_at (pos 1004) []);
  unmarshal_manifest = λ bytes. none;
  marshal_index = λ index. str "x";
  marshal_directory = λ doc. str "d";
}

abbrev holder : Str → Backend
holder name = record {
  backend_name = name;
  writable = true;
  stored = ok (some (str "old"));
  accepts = true;
}

abbrev setup : Setup
setup = record {
  product = str "p";
  directory = none;
  publish_to = str "a" ∷ str "b" ∷ [];
  create = λ name. some (holder name);
  trusted = none;
  signers = some (record { key_id = str "k"; seed = str "s" } ∷ []);
  parse_url = λ raw. some (str "https", raw);
  wire = toy;
  marshal_envelope = λ env. str "new";
}

abbrev options : SetOptions
options = record {
  services =
      record {
        id = str "main";
        priority = pos 1;
        index_url = str "https://u/";
        fallback_url = [];
        channel = [];
      }
      ∷ [];
  to = [];
  dry_run = false;
  runtime_profile = none;
}

abbrev replaced : UpdateDirectory
replaced = directory_at (pos 1005) (
    some (record {
      id = str "main";
      priority = pos 1;
      index_url = str "https://u/";
      fallback_url = [];
      channel = [];
    })
    ∷ [])

set_once : (set_directory setup options (str "t")).0 ≡ ok replaced
unfolding set_directory relkit.Directory.chosen_services relkit.Directory.validate_services
    relkit.Prelude.Text.trim_space relkit.Prelude.Sets.contains relkit.Prelude.◌==◌
    relkit.Directory.chosen_targets relkit.Directory.set_opened relkit.Directory.open_targets
    relkit.Directory.open_target relkit.Directory.set_with_keys relkit.Directory.signers_for
    relkit.Directory.publish relkit.Directory.read_base_sequence relkit.Directory.agreed
    relkit.Directory.read_sequences relkit.Directory.read_directory
    relkit.Directory.clients_can_open relkit.Directory.higher relkit.Directory.new_directory
    relkit.Directory.of_product relkit.Directory.put_all relkit.Directory.put_step
    relkit.Directory.read_envelope relkit.Directory.seal_and_write relkit.Directory.show_or_write
    relkit.Directory.write_all relkit.Directory.written relkit.Envelope.open_directory_envelope
    relkit.Envelope.seal_directory relkit.Envelope.verified_envelope_payload
    relkit.Envelope.verified_payload relkit.Prelude.Dicts.insert relkit.Prelude.Dicts.lookup
    relkit.Prelude.◌+ℤ◌ relkit.Prelude.Sets.add_key relkit.Prelude.Text.trim_left_space
    relkit.Publish.add_signers relkit.Publish.backends_agree relkit.Publish.bytes_of
    relkit.Publish.next_sequence relkit.Publish.floored relkit.Publish.wrap_int
    relkit.Publish.trusted_keys
set_once = refl

set_directory-IsAgreed_example :
    IsAgreed setup options replaced (set_directory setup options (str "t")).1
set_directory-IsAgreed_example =
    set_directory-IsAgreed setup options (str "t") replaced refl set_once
