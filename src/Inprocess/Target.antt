-- ===== src/Inprocess/Target.antt =====
-- `fetchTarget`: the manifest of a version, from the first mirror that has the right bytes.
use relkit.Prelude.{
  Bool, ◌&&◌, Option, none, some, List, [], ◌∷◌, pos, Str, ◌==◌, eqb_ℤ, if◌then◌else◌, length,
}
use relkit.Prelude.Dicts.{value_at}
use relkit.Prelude.Results.{Result, ok, err}
use relkit.Rup.{Index, VersionNode, Manifest, Artifact, DigestRef}
use relkit.Selectors.{apply_key, select_artifact_preferring}
use relkit.Sdk.State.{record_source_failure, record_source_success}
use relkit.Sdk.Ranking.{rank_url_strings}
use relkit.Inprocess.{
  Updater, M, ◌>>=◌, ◌>>◌, pure, remembered, update, get_bytes, TargetError, no_manifest_urls,
  not_fetched, digest_mismatch, size_mismatch, bad_manifest, identity_mismatch, no_artifact,
  all_mirrors_failed,
}

-- `applyPreference`; a nil list matches nothing, as the empty one does.
unfoldable pub preferences : Updater → List Str
preferences u = elim u.apply_preference [
  | some prefs ↦ prefs
  | none ↦ let want = value_at apply_key u.client_selectors in if want == [] then [] else want ∷ []
]

-- The manifest is for the product of the index, and for this version.
unfoldable pub same_identity : Index → VersionNode → Manifest → Bool
same_identity index target manifest =
    (manifest.product == index.product)
    && ((manifest.version == target.version) && eqb_ℤ manifest.code target.code)

-- The checks of one mirror's response, in the order in which the loop makes them.
unfoldable pub judge_manifest :
    Updater
    → Index
    → VersionNode
    → DigestRef
    → Option Str
    → Result TargetError (Manifest × Artifact)
judge_manifest u index target digest none = err not_fetched
judge_manifest u index target digest (some body) =
    if u.wire.sha256_hex body == digest.sha256
    then if eqb_ℤ (pos (length body)) digest.size
      then elim (u.wire.unmarshal_manifest body) [
        | none ↦ err bad_manifest
        | some manifest ↦
            if same_identity index target manifest
            then elim (select_artifact_preferring manifest u.client_selectors (preferences u)) [
              | none ↦ err no_artifact
              | some artifact ↦ ok (manifest, artifact)
            ]
            else err identity_mismatch
      ]
      else err size_mismatch
    else err digest_mismatch

-- The loop over the mirrors; `last` is the error so far.
unfoldable pub try_mirrors :
    Updater
    → Index
    → VersionNode
    → DigestRef
    → List Str
    → TargetError
    → M (Result TargetError (Manifest × Artifact))
try_mirrors u index target digest [] last = pure (err last)
try_mirrors u index target digest (url ∷ rest) last = get_bytes u.net url >>= λ body.
    elim (judge_manifest u index target digest body) [
      | err e ↦ update u.net (record_source_failure url) >> try_mirrors u index target digest rest e
      | ok found ↦ update u.net (record_source_success url (pos 0)) >> pure (ok found)
    ]

unfoldable pub fetch_target :
    Updater → Index → VersionNode → M (Result TargetError (Manifest × Artifact))
fetch_target u index target = elim target.manifest [
  | none ↦ pure (err no_manifest_urls)
  | some digest ↦ elim digest.urls [
    | [] ↦ pure (err no_manifest_urls)
    | url ∷ urls ↦ remembered >>= λ st.
        try_mirrors u index target digest (rank_url_strings st (url ∷ urls)) all_mirrors_failed
  ]
]
