-- ===== src/Examples/EnvelopeRuns.antt =====
-- Runs of internal/envelope/envelope.go with a toy signature: the message behind the key.
use relkit.Prelude.{◌≡◌, ◌≢◌, refl, false, none, some, [], ◌∷◌, ◌++◌, pos, Str, str, ◌==◌, ==-refl}
use relkit.Prelude.Dicts.{Dict, lookup}
use relkit.Prelude.Results.{ok}
use relkit.Rup.{Index}
use relkit.Wire.{Wire, Envelope, IsFaithful}
use relkit.Envelope.{Signer, index_schema, normalize_index, open_envelope, seal}
use relkit.Envelope.Trust.{IsTrusted, open_envelope-IsTrusted, open_envelope-seal}

abbrev document : Index
document = record {
  schema = index_schema;
  product = str "p";
  channel = str "stable";
  sequence = pos 7;
  generated_at = [];
  min_supported = pos 0;
  has_min_supported = false;
  expires_at = [];
  versions = [];
}

-- A wire that knows one index.
abbrev toy : Wire
toy = record {
  verify = λ key message sig. sig == (key ++ message);
  sign = λ seed message. seed ++ message;
  public_key = λ seed. seed;
  sha256_hex = λ bytes. bytes;
  unmarshal_envelope = λ bytes. none;
  unmarshal_index = λ bytes. some document;
  unmarshal_fallback = λ bytes. none;
  unmarshal_directory = λ bytes. none;
  unmarshal_manifest = λ bytes. none;
  marshal_index = λ index. str "index";
  marshal_directory = λ doc. str "d";
}

toy-IsFaithful : IsFaithful toy
toy-IsFaithful = record { verify-sign = λ seed message. ==-refl (seed ++ message) }

abbrev alice : Signer
alice = record { key_id = str "k1"; seed = str "secret" }

abbrev trusted : Dict Str
trusted = (str "k0", str "other") ∷ (str "k1", str "secret") ∷ []

abbrev sealed : Envelope
sealed = record {
  schema = str "rup.envelope/2";
  payload = str "index";
  signatures =
      some (record { key_id = str "k1"; alg = str "ed25519"; sig = str "secretindex" }) ∷ [];
}

seals : seal toy document (alice ∷ []) ≡ some sealed
unfolding seal
seals = refl

opens : open_envelope toy (some sealed) trusted ≡ ok document
unfolding open_envelope relkit.Envelope.verified_envelope_payload ◌==◌
    relkit.Envelope.verified_payload lookup
opens = refl

known : lookup (str "k1") trusted ≡ some (str "secret")
unfolding lookup ◌==◌
known = refl

some_bytes : str "index" ≢ []
some_bytes e = cc

reads_back :
    toy.unmarshal_index (toy.marshal_index (normalize_index document))
    ≡ some (normalize_index document)
unfolding normalize_index
reads_back = refl

open_envelope-IsTrusted_example :
    IsTrusted toy trusted sealed
    × (toy.unmarshal_index sealed.payload ≡ some document)
    × (document.schema ≡ index_schema)
open_envelope-IsTrusted_example = open_envelope-IsTrusted toy sealed trusted opens

open_envelope-seal_example : open_envelope toy (some sealed) trusted ≡ ok (normalize_index document)
open_envelope-seal_example =
    open_envelope-seal toy document alice [] trusted toy-IsFaithful some_bytes reads_back known
      seals
