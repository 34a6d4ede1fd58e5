-- ===== src/Directory.antt =====
-- internal/directory/directory.go: the signed update directory of a product and how it is replaced.
pub mod Base
pub mod Sequences
pub mod Agreed
use relkit.Prelude.{
  Bool, true, false, not, ◌&&◌, ◌||◌, Option, none, some, List, [], ◌∷◌, map, ℤ, pos, Str, str,
  ◌==◌, ltb_ℤ, if◌then◌else◌, is_empty,
}
use relkit.Prelude.Results.{Result, ok, err}
use relkit.Prelude.Dicts.{Dict}
use relkit.Prelude.Sets.{contains, add_key}
use relkit.Prelude.Text.{trim_space}
use relkit.Rup.{UpdateDirectory, DirectoryService, DigestRef}
use relkit.Wire.{Wire, Envelope}
use relkit.Envelope.{OpenError, Signer, open_directory_envelope, seal_directory, directory_schema}
use relkit.Publish.{Backend, next_sequence, trusted_keys, backends_agree}

pub record ServiceInput : Type 0 where
  pub id : Str
  pub priority : ℤ
  pub index_url : Str
  pub fallback_url : Str
  pub channel : Str

pub record DirectoryConfig : Type 0 where
  pub services : List ServiceInput
  pub publish_to : List Str

pub record SetOptions : Type 0 where
  pub services : List ServiceInput
  pub to : List Str
  pub dry_run : Bool
  pub runtime_profile : Option DigestRef

-- The configuration, and what it gives: the backend of a name, where `backends.Create` makes one, the
-- keys, the scheme and host of `url.Parse`, and the bytes of an envelope.
pub record Setup : Type 0 where
  pub product : Str
  pub directory : Option DirectoryConfig
  pub publish_to : List Str
  pub create : Str → Option Backend
  pub trusted : Option (Dict Str)
  pub signers : Option (List Signer)
  pub parse_url : Str → Option (Str × Str)
  pub wire : Wire
  pub marshal_envelope : Envelope → Str

pub data DirectoryError : Type 0 where
  no_product no_services bad_service no_targets not_created read_only no_keys : DirectoryError
  unreadable not_protobuf not_verified other_product divergent : DirectoryError
  no_signers rejected write_failed partly_written : DirectoryError

services_of : Option DirectoryConfig → List ServiceInput
services_of none = []
services_of (some d) = d.services

unfoldable pub chosen_services : Setup → SetOptions → List ServiceInput
unfolding services_of
chosen_services s opts = if is_empty opts.services then services_of s.directory else opts.services

-- `requireAbsoluteURL`: whether there is no error.
is_web : Option (Str × Str) → Bool
is_web none = false
is_web (some parsed) =
    not (is_empty parsed.1) && ((parsed.0 == str "http") || (parsed.0 == str "https"))

absolute_url : Setup → Str → Bool
unfolding is_web
absolute_url s raw = not (is_empty (trim_space raw)) && is_web (s.parse_url raw)

check_service : Setup → List Str → ServiceInput → Bool
unfolding absolute_url
check_service s ids x =
    not (is_empty (trim_space x.id))
    && not (contains x.id ids)
    && absolute_url s x.index_url
    && (is_empty x.fallback_url || absolute_url s x.fallback_url)

-- `validateServices`, with the ids that were seen.
unfoldable pub validate_services : Setup → List Str → List ServiceInput → Bool
unfolding check_service
validate_services s ids [] = true
validate_services s ids (x ∷ rest) =
    check_service s ids x && validate_services s (add_key x.id ids) rest

directory_targets : Option DirectoryConfig → List Str
directory_targets none = []
directory_targets (some d) = d.publish_to

unfoldable pub chosen_targets : Setup → SetOptions → List Str
unfolding directory_targets
chosen_targets s opts =
    if not (is_empty opts.to)
    then opts.to
    else if not (is_empty (directory_targets s.directory))
    then directory_targets s.directory
    else s.publish_to

unfoldable pub open_target :
    Option Backend → Result DirectoryError (List Backend) → Result DirectoryError (List Backend)
open_target none rest = err not_created
open_target (some b) (err e) = if b.writable then err e else err read_only
open_target (some b) (ok opened) = if b.writable then ok (b ∷ opened) else err read_only

unfoldable pub open_targets : Setup → List Str → Result DirectoryError (List Backend)
open_targets s [] = ok []
open_targets s (name ∷ rest) = open_target (s.create name) (open_targets s rest)

-- A dry run reads no signing keys.
unfoldable pub signers_for : Setup → Bool → Option (List Signer)
signers_for s true = some []
signers_for s false = s.signers

-- The body of the loop of `readBaseSequence`: the directory of one backend, if it has one.
unfoldable pub of_product :
    Str → Result OpenError UpdateDirectory → Result DirectoryError (Option UpdateDirectory)
of_product product (err e) = err not_verified
of_product product (ok doc) = if doc.product == product then ok (some doc) else err other_product

unfoldable pub read_envelope :
    Setup → Dict Str → Option Envelope → Result DirectoryError (Option UpdateDirectory)
read_envelope s trusted none = err not_protobuf
read_envelope s trusted (some env) =
    of_product s.product (open_directory_envelope s.wire (some env) trusted)

unfoldable pub read_directory :
    Setup
    → Dict Str
    → Result (Unit {0}) (Option Str)
    → Result DirectoryError (Option UpdateDirectory)
read_directory s trusted (err _) = err unreadable
read_directory s trusted (ok none) = ok none
read_directory s trusted (ok (some raw)) = read_envelope s trusted (s.wire.unmarshal_envelope raw)

unfoldable pub higher : ℤ → Option UpdateDirectory → ℤ
higher base none = base
higher base (some doc) = if ltb_ℤ base doc.directory_sequence then doc.directory_sequence else base

unfoldable pub read_sequences : Setup → Dict Str → ℤ → List Backend → Result DirectoryError ℤ
read_sequences s trusted base [] = ok base
read_sequences s trusted base (b ∷ rest) = elim (read_directory s trusted b.stored) [
  | err e ↦ err e
  | ok doc ↦ read_sequences s trusted (higher base doc) rest
]

-- `readBaseSequence`; the maps by name are read per backend.
unfoldable pub agreed : Bool → Result DirectoryError ℤ → Result DirectoryError ℤ
agreed agree (err e) = err e
agreed agree (ok base) = if agree then ok base else err divergent

unfoldable pub read_base_sequence : Setup → Dict Str → List Backend → Result DirectoryError ℤ
read_base_sequence s trusted backends =
    agreed (backends_agree backends) (read_sequences s trusted (pos 0) backends)

-- The conversion of the inputs, and the new document.
service_of : ServiceInput → Option DirectoryService
service_of x = some (record {
  id = x.id;
  priority = x.priority;
  index_url = x.index_url;
  fallback_url = x.fallback_url;
  channel = x.channel;
})

unfoldable pub new_directory : Setup → SetOptions → Str → List ServiceInput → ℤ → UpdateDirectory
unfolding service_of
new_directory s opts now services base = record {
  schema = directory_schema;
  product = s.product;
  directory_sequence = next_sequence base;
  updated_at = now;
  services = map service_of services;
  runtime_profile = opts.runtime_profile;
}

-- `checkClientsCanVerifyDirectory`
opens_directory : Result OpenError UpdateDirectory → Bool
opens_directory (err e) = false
opens_directory (ok doc) = true

unfoldable pub clients_can_open : Setup → Envelope → Bool
unfolding opens_directory
clients_can_open s env = elim s.trusted [
  | none ↦ true
  | some [] ↦ true
  | some (key ∷ keys) ↦ opens_directory (open_directory_envelope s.wire (some env) (key ∷ keys))
]

-- The loop of `PutPointer`: it stops at the first backend that fails.
abbrev pub Written : Type 0
Written = Option DirectoryError × List Backend

unfoldable pub put_step : Str → Bool → Backend → List Backend → Written → Bool → Written
put_step bytes committed b rest later true =
    (later.0, record b { stored = ok (some bytes) } ∷ later.1)
put_step bytes committed b rest later false =
    (some (if committed then partly_written else write_failed), b ∷ rest)

unfoldable pub put_all : Str → Bool → List Backend → Written
put_all bytes committed [] = (none, [])
put_all bytes committed (b ∷ rest) =
    put_step bytes committed b rest (put_all bytes true rest) b.accepts

abbrev pub Outcome : Type 0
Outcome = Result DirectoryError UpdateDirectory × List Backend

unfoldable pub written :
    UpdateDirectory → Option DirectoryError → Result DirectoryError UpdateDirectory
written doc none = ok doc
written doc (some e) = err e

unfoldable pub write_all : Setup → UpdateDirectory → Envelope → List Backend → Outcome
write_all s doc env backends =
    let result = put_all (s.marshal_envelope env) false backends in
    if clients_can_open s env then (written doc result.0, result.1) else (err rejected, backends)

unfoldable pub seal_and_write : Setup → UpdateDirectory → Option Envelope → List Backend → Outcome
seal_and_write s doc none backends = (err no_signers, backends)
seal_and_write s doc (some env) backends = write_all s doc env backends

unfoldable pub show_or_write : Setup → UpdateDirectory → List Signer → List Backend → Bool → Outcome
show_or_write s doc signers backends true = (ok doc, backends)
show_or_write s doc signers backends false =
    seal_and_write s doc (seal_directory s.wire doc signers) backends

unfoldable pub publish :
    Setup
    → SetOptions
    → Str
    → List ServiceInput
    → List Signer
    → List Backend
    → Result DirectoryError ℤ
    → Outcome
publish s opts now services signers backends (err e) = (err e, backends)
publish s opts now services signers backends (ok base) =
    show_or_write s (new_directory s opts now services base) signers backends opts.dry_run

unfoldable pub set_with_keys :
    Setup → SetOptions → Str → List ServiceInput → List Backend → Option (List Signer) → Outcome
set_with_keys s opts now services backends none = (err no_keys, backends)
set_with_keys s opts now services backends (some signers) =
    publish s opts now services signers backends
      (read_base_sequence s (trusted_keys s.wire s.trusted signers) backends)

unfoldable pub set_opened :
    Setup → SetOptions → Str → List ServiceInput → Result DirectoryError (List Backend) → Outcome
set_opened s opts now services (err e) = (err e, [])
set_opened s opts now services (ok backends) =
    set_with_keys s opts now services backends (signers_for s opts.dry_run)

-- `Set`: the document, and the backends that were opened as it leaves them.
unfoldable pub set_directory : Setup → SetOptions → Str → Outcome
set_directory s opts now =
    if is_empty s.product
    then (err no_product, [])
    else if is_empty (chosen_services s opts)
    then (err no_services, [])
    else if not (validate_services s [] (chosen_services s opts))
    then (err bad_service, [])
    else if is_empty (chosen_targets s opts)
    then (err no_targets, [])
    else set_opened s opts now (chosen_services s opts) (open_targets s (chosen_targets s opts))
