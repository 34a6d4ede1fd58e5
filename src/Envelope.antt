-- ===== src/Envelope.antt =====
-- internal/envelope/envelope.go: signed envelopes. An error is a constructor for each message.
pub mod Trust
pub mod Directories
use relkit.Prelude.{
  Bool, true, false, not, Option, none, some, List, [], ◌∷◌, map, Str, str, ◌==◌, if◌then◌else◌,
  ◌&&◌, ℤ, leb_ℤ,
}
use relkit.Prelude.Dicts.{Dict, lookup}
use relkit.Prelude.Results.{Result, ok, err}
use relkit.Rup.{Index, Fallback, UpdateDirectory}
use relkit.Wire.{Wire, Envelope, Signature}

pub data OpenError : Type 0 where
  no_envelope unexpected_schema no_signatures no_trusted_key unreadable unexpected_document :
      OpenError

abbrev pub envelope_schema : Str
envelope_schema = str "rup.envelope/2"

abbrev pub index_schema : Str
index_schema = str "rup.index/2"

abbrev pub fallback_schema : Str
fallback_schema = str "rup.fallback/2"

abbrev pub directory_schema : Str
directory_schema = str "rup.directory/2"

abbrev pub ed25519 : Str
ed25519 = str "ed25519"

-- Does this signature count, and does a trusted key verify it?
vouches : Wire → Str → Dict Str → Signature → Bool
vouches w payload trusted entry =
    if entry.alg == ed25519
    then (elim (lookup entry.key_id trusted) [
      | none ↦ false
      | some public_key ↦ w.verify public_key payload entry.sig
    ])
    else false

-- The loop of `VerifiedPayload`.
vouched : Wire → Str → Dict Str → List (Option Signature) → Bool
unfolding vouches
vouched w payload trusted [] = false
vouched w payload trusted (none ∷ rest) = vouched w payload trusted rest
vouched w payload trusted (some entry ∷ rest) =
    if vouches w payload trusted entry then true else vouched w payload trusted rest

-- The copy `append([]byte(nil), payload...)`: `nil`, so no payload, where there is nothing to copy.
copied : Str → Option Str
copied [] = none
copied (byte ∷ rest) = some (byte ∷ rest)

unfoldable pub verified_payload : Wire → Option Envelope → Dict Str → Option Str
unfolding vouched copied
verified_payload w none trusted = none
verified_payload w (some env) trusted =
    if env.schema == envelope_schema
    then (if vouched w env.payload trusted env.signatures then copied env.payload else none)
    else none

-- `len(env.Signatures) == 0`
abbrev unsigned : List (Option Signature) → Bool
unsigned [] = true
unsigned (_ ∷ _) = false

abbrev or_untrusted : Option Str → Result OpenError Str
or_untrusted none = err no_trusted_key
or_untrusted (some payload) = ok payload

unfoldable pub verified_envelope_payload : Wire → Option Envelope → Dict Str → Result OpenError Str
verified_envelope_payload w none trusted = err no_envelope
verified_envelope_payload w (some env) trusted =
    if env.schema == envelope_schema
    then (if unsigned env.signatures
        then err no_signatures
        else or_untrusted (verified_payload w (some env) trusted))
    else err unexpected_schema

abbrev checked_index : Option Index → Result OpenError Index
checked_index none = err unreadable
checked_index (some index) =
    if index.schema == index_schema then ok index else err unexpected_document

unfoldable pub open_envelope : Wire → Option Envelope → Dict Str → Result OpenError Index
open_envelope w env trusted = elim (verified_envelope_payload w env trusted) [
  | err e ↦ err e
  | ok payload ↦ checked_index (w.unmarshal_index payload)
]

abbrev checked_fallback : Option Fallback → Result OpenError Fallback
checked_fallback none = err unreadable
checked_fallback (some doc) =
    if doc.schema == fallback_schema then ok doc else err unexpected_document

unfoldable pub open_fallback_envelope :
    Wire → Option Envelope → Dict Str → Result OpenError Fallback
open_fallback_envelope w env trusted = elim (verified_envelope_payload w env trusted) [
  | err e ↦ err e
  | ok payload ↦ checked_fallback (w.unmarshal_fallback payload)
]

abbrev checked_directory : Option UpdateDirectory → Result OpenError UpdateDirectory
checked_directory none = err unreadable
checked_directory (some doc) =
    if doc.schema == directory_schema then ok doc else err unexpected_document

unfoldable pub open_directory_envelope :
    Wire → Option Envelope → Dict Str → Result OpenError UpdateDirectory
open_directory_envelope w env trusted = elim (verified_envelope_payload w env trusted) [
  | err e ↦ err e
  | ok payload ↦ checked_directory (w.unmarshal_directory payload)
]

-- `AcceptEnvelope`: is this an index for the product and the channel, signed by a trusted key?
unfoldable pub accept_envelope : Wire → Option Envelope → Dict Str → Str → Str → Bool
unfolding verified_payload
accept_envelope w env trusted product channel = elim (verified_payload w env trusted) [
  | none ↦ false
  | some payload ↦ elim (w.unmarshal_index payload) [
    | none ↦ false
    | some index ↦
        (index.schema == index_schema) && ((index.product == product) && (index.channel == channel))
  ]
]

pub record Signer : Type 0 where
  pub key_id : Str
  pub seed : Str

signature_of : Wire → Str → Signer → Option Signature
signature_of w payload signer =
    some (record { key_id = signer.key_id; alg = ed25519; sig = w.sign signer.seed payload })

-- `sealPayload`
seal_payload : Wire → Str → List Signer → Envelope
unfolding signature_of
seal_payload w payload signers = record {
  schema = envelope_schema;
  payload = payload;
  signatures = map (signature_of w payload) signers;
}

-- `rupv2.MarshalIndex` sets the schema before it writes.
unfoldable pub normalize_index : Index → Index
normalize_index index = record index { schema = index_schema }

-- `Seal`; `none` where no signer is given.
unfoldable pub seal : Wire → Index → List Signer → Option Envelope
unfolding seal_payload normalize_index
seal w index [] = none
seal w index (signer ∷ signers) =
    some (seal_payload w (w.marshal_index (normalize_index index)) (signer ∷ signers))

-- `SealDirectory`; `rupv2.MarshalDirectory` sets the schema before it writes.
unfoldable pub seal_directory : Wire → UpdateDirectory → List Signer → Option Envelope
unfolding seal_payload
seal_directory w doc [] = none
seal_directory w doc (signer ∷ signers) = some (
    seal_payload w (w.marshal_directory (record doc { schema = directory_schema }))
      (signer ∷ signers))
