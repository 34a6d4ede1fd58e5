-- ===== src/Rup.antt =====
-- The protocol documents of api/rup/v2 (proto/rup/v2/objects.proto) and what internal/model reads
-- of them. A Go pointer that may be nil is an `Option`.
use relkit.Prelude.{Bool, Option, none, some, List, [], ◌∷◌, ◌==◌, Str, ℤ, if◌then◌else◌}
use relkit.Prelude.Dicts.{Dict, insert}

pub record DigestRef : Type 0 where
  pub sha256 : Str
  pub size : ℤ
  pub urls : List Str

pub record VersionNode : Type 0 where
  pub version : Str
  pub code : ℤ
  pub min_from : ℤ
  pub yanked : Bool
  pub manifest : Option DigestRef
  pub released_at : Str
  pub notes : Str
  pub notes_url : Str
  pub resolution_digest : Str
  pub operator_deployment_id : Str
  pub resolution_identity : Str

pub record Index : Type 0 where
  pub schema : Str
  pub product : Str
  pub channel : Str
  pub sequence : ℤ
  pub generated_at : Str
  pub min_supported : ℤ
  pub has_min_supported : Bool
  pub expires_at : Str
  pub versions : List (Option VersionNode)

pub record Selector : Type 0 where
  pub key : Str
  pub value : Str

pub data ArtifactKind : Type 0 where
  unspecified archive installer binary blob payload : ArtifactKind

pub record Artifact : Type 0 where
  pub id : Str
  pub filename : Str
  pub size : ℤ
  pub sha256 : Str
  pub kind : ArtifactKind
  pub selectors : List (Option Selector)
  pub urls : List Str

pub record Manifest : Type 0 where
  pub schema : Str
  pub product : Str
  pub version : Str
  pub code : ℤ
  pub released_at : Str
  pub notes : Str
  pub artifacts : List (Option Artifact)

pub record FallbackRule : Type 0 where
  pub min_code : ℤ
  pub max_code : ℤ
  pub manual_url : Str
  pub message : Str
  pub mandatory : Bool
  pub selectors : List (Option Selector)

pub record Fallback : Type 0 where
  pub schema : Str
  pub product : Str
  pub sequence : ℤ
  pub generated_at : Str
  pub rules : List (Option FallbackRule)

pub record DirectoryService : Type 0 where
  pub id : Str
  pub priority : ℤ
  pub index_url : Str
  pub fallback_url : Str
  pub channel : Str

pub record UpdateDirectory : Type 0 where
  pub schema : Str
  pub product : Str
  pub directory_sequence : ℤ
  pub updated_at : Str
  pub services : List (Option DirectoryService)
  pub runtime_profile : Option DigestRef

-- A Go map from strings to strings.
abbrev pub StrMap : Type 0
StrMap = Dict Str

-- `model.SelectorsToMap`: nil entries and empty keys are dropped, a later value replaces an earlier.
unfoldable pub add_selectors : StrMap → List (Option Selector) → StrMap
add_selectors out [] = out
add_selectors out (none ∷ rest) = add_selectors out rest
add_selectors out (some s ∷ rest) =
    add_selectors (if s.key == [] then out else insert s.key s.value out) rest

unfoldable pub selectors_to_map : List (Option Selector) → StrMap
unfolding add_selectors
selectors_to_map selectors = add_selectors [] selectors
