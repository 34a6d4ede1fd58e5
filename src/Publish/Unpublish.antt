-- ===== src/Publish/Unpublish.antt =====
-- `unpublishOnBackends` of internal/publish/unpublish.go up to the commit of the pointer. The web
-- documents that are rewritten afterwards decide nothing about the index and are left out.
use relkit.Prelude.{
  map, Bool, true, false, not, ◌&&◌, Option, none, some, List, [], ◌∷◌, ℤ, Str, ◌==◌, if◌then◌else◌,
  any, is_empty,
}
use relkit.Prelude.Results.{Result, ok, err}
use relkit.Prelude.Dicts.{Dict}
use relkit.Rup.{Index, VersionNode}
use relkit.Wire.{Wire, Envelope}
use relkit.Envelope.{Signer, OpenError, seal, open_envelope, accept_envelope}
use relkit.Chain.Reachability.{validate_reachability}
use relkit.Publish.{
  Backend, PublishError, read_only, nothing_published, listed_twice, not_listed, only_version,
  unreachable, no_signers, rejected, no_commit, next_sequence, new_index, min_supported_ptr,
  trusted_keys, read_existing_indexes,
}

-- What a configuration and the machine give: the product, its default channel, the public keys of the
-- configuration where they can be read, the signing keys, and the bytes of an envelope.
pub record Config : Type 0 where
  pub product : Str
  pub channel : Str
  pub trusted : Option (Dict Str)
  pub signers : List Signer
  pub wire : Wire
  pub marshal_envelope : Envelope → Str

-- The loop over the versions: the one to remove, and the others.
pub record Split : Type 0 where
  pub removed : Option VersionNode
  pub kept : List (Option VersionNode)

unfoldable pub first_removed :
    VersionNode → Option VersionNode → List (Option VersionNode) → Result PublishError Split
first_removed node (some _) kept = err listed_twice
first_removed node none kept = ok (record { removed = some node; kept = kept })

unfoldable pub split_node : Str → VersionNode → Split → Result PublishError Split
split_node version node s =
    if node.version == version
    then first_removed node s.removed s.kept
    else ok (record { removed = s.removed; kept = some node ∷ s.kept })

unfoldable pub split_rest :
    Str → Option VersionNode → Result PublishError Split → Result PublishError Split
split_rest version entry (err e) = err e
split_rest version none (ok s) = ok s
split_rest version (some node) (ok s) = split_node version node s

-- Which entry comes second is the same from either end.
unfoldable pub split_versions : Str → List (Option VersionNode) → Result PublishError Split
split_versions version [] = ok (record { removed = none; kept = [] })
split_versions version (node ∷ rest) = split_rest version node (split_versions version rest)

unfoldable pub checked_kept :
    Option VersionNode → List (Option VersionNode) → Result PublishError (List (Option VersionNode))
checked_kept none kept = err not_listed
checked_kept (some _) kept = if is_empty kept then err only_version else ok kept

unfoldable pub checked_split :
    Result PublishError Split → Result PublishError (List (Option VersionNode))
checked_split (err e) = err e
checked_split (ok s) = checked_kept s.removed s.kept

unfoldable pub kept_versions :
    Str → List (Option VersionNode) → Result PublishError (List (Option VersionNode))
kept_versions version [] = err nothing_published
kept_versions version (node ∷ rest) = checked_split (split_versions version (node ∷ rest))

-- `validateIndex`
unfoldable pub validate_index : Index → Result PublishError Index
validate_index index =
    if is_empty (validate_reachability index).0 then ok index else err unreachable

unfoldable pub validate_new : Result PublishError Index → Result PublishError Index
validate_new (err e) = err e
validate_new (ok index) = validate_index index

unfoldable pub rebuild :
    Config
    → Str
    → Index
    → ℤ
    → Result PublishError (List (Option VersionNode))
    → Result PublishError Index
rebuild c now existing base (err e) = err e
rebuild c now existing base (ok kept) =
    validate_new
      (new_index c.product c.channel (next_sequence base) kept (min_supported_ptr existing) now)

-- `checkClientsCanVerify`
opens : Result OpenError Index → Bool
opens (err e) = false
opens (ok index) = true

unfoldable pub clients_can_verify : Config → Envelope → Bool
unfolding opens
clients_can_verify c env = elim c.trusted [
  | none ↦ true
  | some [] ↦ true
  | some (key ∷ keys) ↦
      opens (open_envelope c.wire (some env) (key ∷ keys))
      && accept_envelope c.wire (some env) (key ∷ keys) c.product c.channel
]

-- `PutPointer` on each backend
unfoldable pub put_pointer : Str → Backend → Backend
put_pointer bytes b = if b.accepts then record b { stored = ok (some bytes) } else b

abbrev pub Unpublished : Type 0
Unpublished = Result PublishError (Option Index) × List Backend

unfoldable pub commit : Config → Index → Envelope → List Backend → Unpublished
commit c index env backends =
    if not (clients_can_verify c env)
    then (err rejected, backends)
    else if any (λ b. b.accepts) backends
    then (ok (some index), map (put_pointer (c.marshal_envelope env)) backends)
    else (err no_commit, backends)

unfoldable pub seal_and_commit : Config → Index → Option Envelope → List Backend → Unpublished
seal_and_commit c index none backends = (err no_signers, backends)
seal_and_commit c index (some env) backends = commit c index env backends

unfoldable pub write_index : Config → Result PublishError Index → List Backend → Unpublished
write_index c (err e) backends = (err e, backends)
write_index c (ok index) backends = seal_and_commit c index (seal c.wire index c.signers) backends

-- A dry run stops after the checks of the versions.
dry_result : Result PublishError (List (Option VersionNode)) → Result PublishError (Option Index)
dry_result (err e) = err e
dry_result (ok kept) = ok none

unfoldable pub remove_from :
    Config → Str → Bool → Str → Result PublishError (Index × ℤ) → List Backend → Unpublished
unfolding dry_result
remove_from c version dry_run now (err e) backends = (err e, backends)
remove_from c version dry_run now (ok existing) backends =
    let kept = kept_versions version existing.0.versions in
    if dry_run
    then (dry_result kept, backends)
    else write_index c (rebuild c now existing.0 existing.1 kept) backends

unfoldable pub unpublish_on_backends : Config → Str → Bool → Str → List Backend → Unpublished
unpublish_on_backends c version dry_run now backends =
    if any (λ b. not b.writable) backends
    then (err read_only, backends)
    else let trusted = trusted_keys c.wire c.trusted c.signers in
      remove_from c version dry_run now
        (read_existing_indexes c.wire trusted c.product c.channel now backends) backends
