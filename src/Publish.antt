-- ===== src/Publish.antt =====
-- What publishing shares (internal/publish/publish.go, internal/model/model.go): the current index as
-- the backends have it, and the index that replaces it.
pub mod Unpublish
pub mod Others
pub mod Removed
pub mod CasGc
pub mod Orphans
use relkit.Prelude.{
  ◌-◌, negsuc, ◌^◌, ◌%◌, ℕ, ◌+◌, Bool, true, false, not, ◌&&◌, ◌||◌, Option, none, some, List, [],
  ◌∷◌, map, ℤ, pos, ◌+ℤ◌, Str, str, ◌==◌, ltb_ℤ, leb_ℤ, leb, ltb, eqb_ℕ, if◌then◌else◌, length, any,
  is_empty,
}
use relkit.Prelude.Results.{Result, ok, err}
use relkit.Prelude.Sorting.{sort_by}
use relkit.Prelude.Dicts.{Dict, insert}
use relkit.Rup.{Index, VersionNode}
use relkit.Wire.{Wire, Envelope}
use relkit.Chain.{has_min_supported, find_head}
use relkit.Envelope.{OpenError, Signer, open_envelope, accept_envelope, index_schema}

-- A backend, as far as one index is concerned: what `Get` returns for the index's key (an error, or
-- bytes where there are any), and whether it takes a new pointer.
pub record Backend : Type 0 where
  pub backend_name : Str
  pub writable : Bool
  pub stored : Result (Unit {0}) (Option Str)
  pub accepts : Bool

pub data PublishError : Type 0 where
  read_only unreadable not_protobuf not_verified other_channel divergent : PublishError
  nothing_published listed_twice not_listed only_version : PublishError
  bad_identifier bad_sequence no_versions unreachable no_signers rejected no_commit : PublishError

-- `SequenceFloor`, `NextSequence`
abbrev pub sequence_floor : ℤ
sequence_floor = pos 1000

-- An `int` after an addition: the 64-bit integer that has the same residue.
abbrev pub max_int : ℤ
max_int = pos (2 ^ 63 - 1)

signed : ℕ → ℤ
signed m = if ltb m (2 ^ 63) then pos m else negsuc (2 ^ 64 - 1 - m)

unfoldable pub wrap_int : ℤ → ℤ
unfolding signed
wrap_int (pos n) = signed (n % 2 ^ 64)
wrap_int (negsuc n) = signed (2 ^ 64 - 1 - n % 2 ^ 64)

unfoldable pub floored : ℤ → ℤ → ℤ
floored base next = if leb_ℤ (pos 1) base && ltb_ℤ next sequence_floor then sequence_floor else next

unfoldable pub next_sequence : ℤ → ℤ
next_sequence base = floored base (wrap_int (base +ℤ pos 1))

-- `CheckIdentifier`: whether there is no error.
is_word : ℕ → Bool
is_word c = (leb 97 c && leb c 122) || (leb 65 c && leb c 90) || (leb 48 c && leb c 57)

is_inner : ℕ → Bool
unfolding is_word
is_inner c = is_word c || eqb_ℕ c 46 || eqb_ℕ c 95 || eqb_ℕ c 45

unfoldable pub check_identifier : Str → Bool
unfolding is_word is_inner
check_identifier [] = false
check_identifier (c ∷ rest) =
    ltb (length rest) 64 && is_word c && not (any (λ d. not (is_inner d)) rest)

-- `cloneVersionNodes` drops the entries that are nil; the copies are sorted by code.
unfoldable pub clone_version_nodes : List (Option VersionNode) → List VersionNode
clone_version_nodes [] = []
clone_version_nodes (none ∷ rest) = clone_version_nodes rest
clone_version_nodes (some node ∷ rest) = node ∷ clone_version_nodes rest

unfoldable pub sorted_nodes : List (Option VersionNode) → List (Option VersionNode)
sorted_nodes versions =
    map some (sort_by (λ a b. ltb_ℤ a.code b.code) (clone_version_nodes versions))

-- `NewIndex`; `minimum` is the one of `MinSupportedPtr`.
unfoldable pub index_with : Str → Str → ℤ → List (Option VersionNode) → Option ℤ → Str → Index
index_with product channel sequence versions none generated_at = record {
  schema = index_schema;
  product = product;
  channel = channel;
  sequence = sequence;
  generated_at = generated_at;
  min_supported = pos 0;
  has_min_supported = false;
  expires_at = [];
  versions = sorted_nodes versions;
}
index_with product channel sequence versions (some minimum) generated_at = record {
  schema = index_schema;
  product = product;
  channel = channel;
  sequence = sequence;
  generated_at = generated_at;
  min_supported = minimum;
  has_min_supported = true;
  expires_at = [];
  versions = sorted_nodes versions;
}

unfoldable pub new_index :
    Str → Str → ℤ → List (Option VersionNode) → Option ℤ → Str → Result PublishError Index
new_index product channel sequence versions minimum generated_at =
    if not (check_identifier product && check_identifier channel)
    then err bad_identifier
    else if ltb_ℤ sequence (pos 1)
    then err bad_sequence
    else if is_empty versions
    then err no_versions
    else ok (index_with product channel sequence versions minimum generated_at)

unfoldable pub min_supported_ptr : Index → Option ℤ
min_supported_ptr index = if has_min_supported index then some index.min_supported else none

-- `EmptyIndex`
unfoldable pub empty_index : Str → Str → Str → Index
empty_index product channel now = record {
  schema = index_schema;
  product = product;
  channel = channel;
  sequence = pos 0;
  generated_at = now;
  min_supported = pos 0;
  has_min_supported = false;
  expires_at = [];
  versions = [];
}

-- `trustedKeys`: the configured keys, where there are any, and those of the signers.
unfoldable pub add_signers : Wire → List Signer → Dict Str → Dict Str
add_signers w [] trusted = trusted
add_signers w (s ∷ signers) trusted =
    add_signers w signers (insert s.key_id (w.public_key s.seed) trusted)

unfoldable pub trusted_keys : Wire → Option (Dict Str) → List Signer → Dict Str
trusted_keys w none signers = add_signers w signers []
trusted_keys w (some configured) signers = add_signers w signers configured

-- One turn of the loop of `readExistingIndexes`: the index of one backend, if it has one.
unfoldable pub of_this_channel :
    Str → Str → Result OpenError Index → Result PublishError (Option Index)
of_this_channel product channel (err e) = err not_verified
of_this_channel product channel (ok index) =
    if (index.product == product) && (index.channel == channel)
    then ok (some index)
    else err other_channel

unfoldable pub read_bytes :
    Wire → Dict Str → Str → Str → Option Envelope → Result PublishError (Option Index)
read_bytes w trusted product channel none = err not_protobuf
read_bytes w trusted product channel (some env) =
    of_this_channel product channel (open_envelope w (some env) trusted)

unfoldable pub read_index :
    Wire
    → Dict Str
    → Str
    → Str
    → Result (Unit {0}) (Option Str)
    → Result PublishError (Option Index)
read_index w trusted product channel (err _) = err unreadable
read_index w trusted product channel (ok none) = ok none
read_index w trusted product channel (ok (some raw)) =
    read_bytes w trusted product channel (w.unmarshal_envelope raw)

unfoldable pub add_parsed :
    Option Index → Result PublishError (List Index) → Result PublishError (List Index)
add_parsed none rest = rest
add_parsed (some index) (err e) = err e
add_parsed (some index) (ok indexes) = ok (index ∷ indexes)

unfoldable pub read_all :
    Wire → Dict Str → Str → Str → List Backend → Result PublishError (List Index)
read_all w trusted product channel [] = ok []
read_all w trusted product channel (b ∷ backends) =
    let rest = read_all w trusted product channel backends in
    elim (read_index w trusted product channel b.stored) [
      | err e ↦ err e
      | ok index ↦ add_parsed index rest
    ]

-- `bytes.Equal` takes missing bytes for none.
unfoldable pub bytes_of : Result (Unit {0}) (Option Str) → Str
bytes_of (err _) = []
bytes_of (ok none) = []
bytes_of (ok (some raw)) = raw

unfoldable pub backends_agree : List Backend → Bool
backends_agree [] = true
backends_agree (first ∷ rest) =
    not (any (λ b. not (bytes_of first.stored == bytes_of b.stored)) rest)

unfoldable pub newest_index : Index → List Index → Index
newest_index best [] = best
newest_index best (index ∷ rest) =
    newest_index (if ltb_ℤ best.sequence index.sequence then index else best) rest

-- `readExistingIndexes`: the index and its sequence, 0 where there is none.
unfoldable pub choose_index :
    Str → Str → Str → Bool → Result PublishError (List Index) → Result PublishError (Index × ℤ)
choose_index product channel now agree (err e) = err e
choose_index product channel now agree (ok []) = ok (empty_index product channel now, pos 0)
choose_index product channel now agree (ok (index ∷ rest)) =
    if agree
    then ok (newest_index index rest, (newest_index index rest).sequence)
    else err divergent

unfoldable pub read_existing_indexes :
    Wire → Dict Str → Str → Str → Str → List Backend → Result PublishError (Index × ℤ)
read_existing_indexes w trusted product channel now backends =
    choose_index product channel now (backends_agree backends)
      (read_all w trusted product channel backends)
