-- ===== src/Examples/CheckRuns.antt =====
-- Whole checks of internal/inprocess/updater.go against a network that answers every request.
use relkit.Inprocess.Notice.{
  check_fallback, or_configured, try_fallbacks, judge_fallback, answer_of, match_fallback_rule,
  rule_applies, notice_of,
}
use relkit.Selectors.{select_artifact_preferring, matching, matches_client_apply}
use relkit.Inprocess.Target.{fetch_target, try_mirrors, judge_manifest, same_identity, preferences}
use relkit.Chain.{resolve_upgrade_path, select_next_target, is_mandatory}
use relkit.Prelude.Sorting.{sort_by}
use relkit.Sdk.Ranking.{rank_url_strings, rank_by_learning}
use relkit.Prelude.{
  ◌≡◌, ◌≢◌, refl, true, false, none, some, List, [], ◌∷◌, ◌++◌, ℤ, pos, ◌≤ℤ◌, Str, str, ◌==◌, ◌↔◌,
  In,
}
use relkit.Prelude.Dicts.{lookup, insert}
use relkit.Rup.{
  selectors_to_map, Index, VersionNode, Manifest, Artifact, binary, Fallback, FallbackRule,
}
use relkit.Wire.{Wire, Envelope}
use relkit.Envelope.{
  open_envelope, verified_envelope_payload, verified_payload, open_fallback_envelope, index_schema,
  fallback_schema,
}
use relkit.Sdk.State.{
  accepts_sequence, record_source_success, stat_of, observe_sequence, raise_mark, is_skipped,
  observe_fallback_sequence, empty_state,
}
use relkit.Inprocess.{
  ◌>>=◌, pure, remembered, update, get_bytes, get_fresh, Net, Updater, World, UpdateAvailable,
  FallbackRequired,
}
use relkit.Inprocess.Sources.{resolve_index_plan, plain_candidate, unique_strings}
use relkit.Inprocess.Check.{
  check_index, with_plan, refusal, check_candidates, open_candidate, judge_index, offer_next,
  offer_target, offered, settled, current_is_yanked, exact_candidates, offer_exact, offer_kept,
  find_code, failed, fetch_exact,
}
use relkit.Inprocess.Force.{
  check_now, conclusion, without_update, by_error, only_notice, stamp_check, check_force,
}
use relkit.Inprocess.Triples.{Marks}
use relkit.Sdk.State.Marks.{AtLeast-refl}
use relkit.Inprocess.Answers.{IsOffer}
use relkit.Inprocess.Notices.{IsNotice}
use relkit.Inprocess.Exact.{IsExact, fetch_exact-IsExact}
use relkit.Inprocess.Distinct.{Distinct, unique_strings-Distinct}
use relkit.Inprocess.Checked.{
  check_force-IsOffer, check_force-Marks, check_force-IsNotice, offers_in_order,
}

abbrev v2 : VersionNode
v2 = record {
  version = str "2";
  code = pos 2;
  min_from = pos 0;
  yanked = false;
  manifest = some (record { sha256 = str "m"; size = pos 1; urls = str "u" ∷ [] });
  released_at = [];
  notes = [];
  notes_url = [];
  resolution_digest = [];
  operator_deployment_id = [];
  resolution_identity = [];
}

abbrev catalogue : Index
catalogue = record {
  schema = index_schema;
  product = str "p";
  channel = str "c";
  sequence = pos 7;
  generated_at = [];
  min_supported = pos 0;
  has_min_supported = false;
  expires_at = [];
  versions = some v2 ∷ [];
}

abbrev app : Artifact
app = record {
  id = str "a";
  filename = str "a";
  size = pos 1;
  sha256 = [];
  kind = binary;
  selectors = [];
  urls = [];
}

abbrev contents : Manifest
contents = record {
  schema = [];
  product = str "p";
  version = str "2";
  code = pos 2;
  released_at = [];
  notes = [];
  artifacts = some app ∷ [];
}

abbrev urgent : FallbackRule
urgent = record {
  min_code = pos 0;
  max_code = pos 9;
  manual_url = str "h";
  message = [];
  mandatory = true;
  selectors = [];
}

abbrev emergency : Fallback
emergency = record {
  schema = fallback_schema;
  product = str "p";
  sequence = pos 3;
  generated_at = [];
  rules = some urgent ∷ [];
}

abbrev letter : Envelope
letter = record {
  schema = str "rup.envelope/2";
  payload = str "x";
  signatures = some (record { key_id = str "k"; alg = str "ed25519"; sig = str "sx" }) ∷ [];
}

abbrev toy : Wire
toy = record {
  verify = λ key message sig. sig == (key ++ message);
  sign = λ seed message. seed ++ message;
  public_key = λ seed. seed;
  sha256_hex = λ bytes. bytes;
  unmarshal_envelope = λ bytes. some letter;
  unmarshal_index = λ bytes. some catalogue;
  unmarshal_fallback = λ bytes. some emergency;
  unmarshal_directory = λ bytes. none;
  unmarshal_manifest = λ bytes. some contents;
  marshal_index = λ index. str "x";
  marshal_directory = λ doc. str "d";
}

abbrev answering : Net
answering = record {
  fetch = λ calls url. some (str "m");
  now = λ calls. pos calls;
  stamp = λ calls. str "0";
}

-- A client at a code, with its fallback URLs.
abbrev client : ℤ → List Str → Updater
client code fallbacks = record {
  wire = toy;
  net = answering;
  product = str "p";
  channel = str "c";
  current_code = code;
  index_urls = str "i" ∷ [];
  entry_urls = [];
  fallback_urls = fallbacks;
  trusted_keys = (str "k", str "s") ∷ [];
  client_selectors = [];
  apply_preference = none;
  policy = record { after_success = pos 0; after_failure = pos 0 };
  recovery = none;
}

abbrev fresh : World
fresh = record { memory = empty_state; calls = 0 }

abbrev offer : UpdateAvailable
offer = record {
  target = v2;
  manifest = contents;
  artifact = app;
  mandatory = false;
  remaining_hops = 1;
  sequence = pos 7;
  prior_release_notes = [];
}

abbrev warning : FallbackRequired
warning = record {
  manual_url = str "h";
  message = [];
  mandatory = true;
  sequence = pos 3;
  min_code = pos 0;
  max_code = pos 9;
}

abbrev after : World
after = (check_force (client (pos 1) []) true fresh).1

-- A check that offers version 2, the same check again, one that finds nothing to do, and one that
-- only finds a notice.
runs :
    ((check_force (client (pos 1) []) true fresh).0.available ≡ some offer)
    × ((check_force (client (pos 1) []) true after).0.available ≡ some offer)
    × ((check_force (client (pos 2) []) true fresh).0.up_to_date ≡ true)
    × ((check_force (client (pos 2) (str "f" ∷ [])) true fresh).0.fallback ≡ some warning)
unfolding check_force check_now ◌>>=◌ pure remembered update get_bytes get_fresh conclusion
    without_update by_error only_notice stamp_check check_index with_plan refusal ◌==◌
    resolve_index_plan plain_candidate rank_url_strings rank_by_learning check_candidates
    open_candidate judge_index open_envelope verified_envelope_payload verified_payload lookup
    accepts_sequence record_source_success stat_of insert observe_sequence raise_mark
    resolve_upgrade_path select_next_target offer_next offer_target is_mandatory is_skipped offered
    settled fetch_target try_mirrors judge_manifest same_identity select_artifact_preferring
    matching matches_client_apply selectors_to_map sort_by preferences current_is_yanked
    check_fallback or_configured try_fallbacks judge_fallback open_fallback_envelope
    observe_fallback_sequence answer_of match_fallback_rule rule_applies notice_of unique_strings
runs = (refl, refl, refl, refl)

fetches : (fetch_exact (client (pos 5) []) (pos 2) fresh).0.available ≡ some offer
unfolding fetch_exact ◌>>=◌ pure remembered update get_bytes get_fresh exact_candidates offer_exact
    offer_kept find_code failed with_plan refusal ◌==◌ resolve_index_plan plain_candidate
    rank_url_strings rank_by_learning check_candidates open_candidate judge_index open_envelope
    verified_envelope_payload verified_payload lookup accepts_sequence record_source_success stat_of
    insert observe_sequence raise_mark resolve_upgrade_path select_next_target offer_next
    offer_target is_mandatory is_skipped offered settled fetch_target try_mirrors judge_manifest
    same_identity select_artifact_preferring matching matches_client_apply selectors_to_map sort_by
    preferences current_is_yanked check_fallback or_configured try_fallbacks judge_fallback
    open_fallback_envelope observe_fallback_sequence answer_of match_fallback_rule rule_applies
    notice_of unique_strings
fetches = refl

check_force-IsOffer_example : IsOffer (client (pos 1) []) empty_state offer
check_force-IsOffer_example = check_force-IsOffer (client (pos 1) []) true fresh offer runs.0

check_force-Marks_example : Marks empty_state (check_force (client (pos 1) []) false fresh).1.memory
check_force-Marks_example = check_force-Marks (client (pos 1) []) false fresh

check_force-IsNotice_example : IsNotice (client (pos 2) (str "f" ∷ [])) none warning
check_force-IsNotice_example =
    check_force-IsNotice (client (pos 2) (str "f" ∷ [])) true fresh warning runs.3

offers_in_order_example : offer.sequence ≤ℤ offer.sequence
offers_in_order_example =
    offers_in_order (client (pos 1) []) (client (pos 1) []) true true fresh after offer offer
      (AtLeast-refl after.memory.last_seen_sequence) runs.0 runs.1

fetch_exact-IsExact_example : IsExact (client (pos 5) []) empty_state (pos 2) offer
fetch_exact-IsExact_example = fetch_exact-IsExact (client (pos 5) []) (pos 2) fresh offer fetches

two_are-Distinct :
    Distinct (unique_strings (str "a" ∷ [] ∷ str "a" ∷ []))
    × ((s : Str)
        → In s (unique_strings (str "a" ∷ [] ∷ str "a" ∷ []))
          ↔ (In s (str "a" ∷ [] ∷ str "a" ∷ []) × (s ≢ [])))
two_are-Distinct = unique_strings-Distinct (str "a" ∷ [] ∷ str "a" ∷ [])
