-- ===== src/Inprocess/Check.antt =====
-- `checkIndex` and `FetchExact`: from the sources to the version and the artifact that are offered.
use relkit.Prelude.{
  Bool, true, false, not, ◌&&◌, ◌||◌, Option, none, some, List, [], ◌∷◌, ◌++◌, ℤ, pos, negsuc, ℕ,
  suc, Str, str, ◌==◌, leb_ℤ, eqb_ℤ, if◌then◌else◌, length, is_empty,
}
use relkit.Prelude.Decimal.{decimal}
use relkit.Prelude.Results.{Result, ok, err}
use relkit.Rup.{Index, VersionNode, Manifest, Artifact}
use relkit.Envelope.{open_envelope}
use relkit.Chain.{resolve_upgrade_path, is_mandatory}
use relkit.Sdk.State.{
  UpdateState, accepts_sequence, record_source_failure, record_source_success, observe_sequence,
  is_skipped,
}
use relkit.Inprocess.{
  Updater, M, ◌>>=◌, ◌>>◌, pure, remembered, update, get_fresh, Reason, fetch_failed, bad_envelope,
  not_verified, mismatch, older, target_failed, Attempt, gave_up, PriorReleaseNotes, CheckResult,
  empty_result,
}
use relkit.Inprocess.Sources.{Candidate, resolve_index_plan}
use relkit.Inprocess.Target.{fetch_target}

-- `currentIsYanked`
unfoldable pub current_is_yanked : List (Option VersionNode) → ℤ → Bool
current_is_yanked [] current_code = false
current_is_yanked (none ∷ rest) current_code = current_is_yanked rest current_code
current_is_yanked (some node ∷ rest) current_code =
    let later = current_is_yanked rest current_code in
    if eqb_ℤ node.code current_code then node.yanked else later

-- `collectPriorReleaseNotes`
collect_notes : List (Option VersionNode) → ℤ → List PriorReleaseNotes
collect_notes [] current_code = []
collect_notes (none ∷ rest) current_code = collect_notes rest current_code
collect_notes (some node ∷ rest) current_code =
    let later = collect_notes rest current_code in
    if leb_ℤ node.code current_code || ((node.notes == []) && (node.notes_url == []))
    then later
    else record {
      version = node.version;
      code = node.code;
      notes = node.notes;
      notes_url = node.notes_url;
    }
      ∷ later

-- What the loop makes of a response, the mark being the last sequence seen.
unfoldable pub judge_index : Updater → Option ℤ → Option Str → Result Reason Index
judge_index u mark none = err fetch_failed
judge_index u mark (some body) = elim (u.wire.unmarshal_envelope body) [
  | none ↦ err bad_envelope
  | some env ↦ elim (open_envelope u.wire (some env) u.trusted_keys) [
    | err _ ↦ err not_verified
    | ok index ↦
        if (index.product == u.product) && (index.channel == u.channel)
        then (if accepts_sequence index.sequence mark then ok index else err older)
        else err mismatch
  ]
]

-- An index that is too old is passed over without counting against its source.
unfoldable pub note_failure : Reason → Str → ℤ → UpdateState → UpdateState
note_failure older key now s = s
note_failure reason key now s = record_source_failure key now s

-- The first half of the loop's body: the index of one candidate.
unfoldable pub open_candidate : Updater → Candidate → M (Result Reason Index)
open_candidate u candidate = get_fresh u.net candidate.url >>= λ body. remembered >>= λ st.
    elim (judge_index u st.last_seen_sequence body) [
      | err reason ↦
          update u.net (note_failure reason candidate.preference_key) >> pure (err reason)
      | ok index ↦
          update u.net (record_source_success candidate.preference_key (pos 0))
          >> update u.net (λ _. observe_sequence index.sequence)
          >> pure (ok index)
    ]

unfoldable pub offered :
    Updater → Index → VersionNode → Manifest → Artifact → Bool → ℕ → List Attempt → CheckResult
unfolding collect_notes
offered u index target manifest artifact mandatory hops attempts = record empty_result {
  current_is_yanked = current_is_yanked index.versions u.current_code;
  available = some (record {
    target = target;
    manifest = manifest;
    artifact = artifact;
    mandatory = mandatory;
    remaining_hops = hops;
    sequence = index.sequence;
    prior_release_notes = collect_notes index.versions u.current_code;
  });
  sequence = index.sequence;
  attempts = attempts;
}

unfoldable pub settled : Updater → Index → List Attempt → CheckResult
settled u index attempts = record empty_result {
  up_to_date = true;
  current_is_yanked = current_is_yanked index.versions u.current_code;
  sequence = index.sequence;
  attempts = attempts;
}

unfoldable pub failed : Str → ℤ → List Attempt → CheckResult
failed message sequence attempts = record empty_result {
  sequence = sequence;
  attempts = attempts;
  error = some message;
}

-- The manifest of the target; where it cannot be had, the candidate is given up.
unfoldable pub offer_target :
    Updater → Index → VersionNode → Bool → ℕ → List Attempt → M (Result Reason CheckResult)
offer_target u index target mandatory hops attempts = fetch_target u index target >>= λ fetched.
    elim fetched [
      | err e ↦ pure (err (target_failed e))
      | ok (manifest, artifact) ↦
          pure (ok (offered u index target manifest artifact mandatory hops attempts))
    ]

-- The second half of the loop's body of `checkIndex`, for the path from the client's code.
unfoldable pub offer_next :
    Updater → Index → List Attempt → List VersionNode → M (Result Reason CheckResult)
offer_next u index attempts [] = pure (ok (settled u index attempts))
offer_next u index attempts (target ∷ rest) = remembered >>= λ st.
    if not (is_mandatory index u.current_code) && is_skipped target.code st
    then pure (ok (settled u index attempts))
    else offer_target u index target (is_mandatory index u.current_code) (suc (length rest))
        attempts

unfoldable pub no_source : List Attempt → Str
no_source attempts =
    str "no usable index source (" ++ decimal (length attempts) ++ str " attempted)"

unfoldable pub check_candidates : Updater → List Candidate → List Attempt → M CheckResult
check_candidates u [] attempts = pure (failed (no_source attempts) (pos 0) attempts)
check_candidates u (candidate ∷ rest) attempts = open_candidate u candidate >>= λ opened.
    elim opened [
      | err reason ↦ check_candidates u rest (attempts ++ gave_up candidate.url reason ∷ [])
      | ok index ↦
          offer_next u index attempts (resolve_upgrade_path index u.current_code) >>= λ answer.
          elim answer [
            | err reason ↦ check_candidates u rest (attempts ++ gave_up candidate.url reason ∷ [])
            | ok result ↦ pure result
          ]
    ]

-- The second half of the loop's body of `FetchExact`: the first node with the code.
unfoldable pub find_code : ℤ → List (Option VersionNode) → Option VersionNode
find_code code [] = none
find_code code (none ∷ rest) = find_code code rest
find_code code (some node ∷ rest) =
    let later = find_code code rest in if eqb_ℤ node.code code then some node else later

int_text : ℤ → Str
int_text (pos n) = decimal n
int_text (negsuc n) = str "-" ++ decimal (suc n)

unfoldable pub exact_error : ℤ → Str → Str
unfolding int_text
exact_error code what = str "exact code " ++ int_text code ++ what

-- A version that is yanked is refused.
unfoldable pub offer_kept :
    Updater → Index → ℤ → List Attempt → VersionNode → Bool → M (Result Reason CheckResult)
offer_kept u index code attempts target true =
    pure (ok (failed (exact_error code (str " is yanked")) index.sequence attempts))
offer_kept u index code attempts target false = offer_target u index target false 1 attempts

unfoldable pub offer_exact :
    Updater → Index → ℤ → List Attempt → Option VersionNode → M (Result Reason CheckResult)
offer_exact u index code attempts none =
    pure (ok (failed (exact_error code (str " not reachable")) index.sequence attempts))
offer_exact u index code attempts (some target) =
    offer_kept u index code attempts target target.yanked

unfoldable pub exact_candidates : Updater → ℤ → List Candidate → List Attempt → M CheckResult
exact_candidates u code [] attempts =
    pure (failed (exact_error code (str " not reachable")) (pos 0) attempts)
exact_candidates u code (candidate ∷ rest) attempts = open_candidate u candidate >>= λ opened.
    elim opened [
      | err reason ↦ exact_candidates u code rest (attempts ++ gave_up candidate.url reason ∷ [])
      | ok index ↦ offer_exact u index code attempts (find_code code index.versions) >>= λ answer.
          elim answer [
            | err reason ↦
                exact_candidates u code rest (attempts ++ gave_up candidate.url reason ∷ [])
            | ok result ↦ pure result
          ]
    ]

-- The conditions that `checkIndex` and `FetchExact` start with, and the message of the first that
-- does not hold.
unfoldable pub refusal : Updater → Option Str
refusal u =
    if (u.product == []) || (u.channel == [])
    then some (str "product and channel are required")
    else if is_empty u.trusted_keys
    then some (str "trusted keys are required")
    else if is_empty u.entry_urls && is_empty u.index_urls
    then some (str "at least one entry URL or index URL is required")
    else none

unfoldable pub no_candidates : List Attempt → CheckResult
no_candidates attempts =
    failed
      (str "no usable directory/index source (" ++ decimal (length attempts) ++ str " attempted)")
      (pos 0) attempts

-- What both do with a plan: `loop` is theirs.
unfoldable pub with_plan : Updater → (List Candidate → List Attempt → M CheckResult) → M CheckResult
with_plan u loop = elim (refusal u) [
  | some message ↦ pure (failed message (pos 0) [])
  | none ↦ resolve_index_plan u >>= λ plan.
      let (candidates, _, attempts) = plan in
      if is_empty candidates then pure (no_candidates attempts) else loop candidates attempts
]

unfoldable pub check_index : Updater → M CheckResult
check_index u = with_plan u (check_candidates u)

unfoldable pub fetch_exact : Updater → ℤ → M CheckResult
fetch_exact u code = with_plan u (exact_candidates u code)
