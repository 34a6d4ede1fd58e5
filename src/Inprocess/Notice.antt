-- ===== src/Inprocess/Notice.antt =====
-- `CheckFallback`: the signed notice that urges a manual update.
use relkit.Prelude.{
  Bool, ◌&&◌, Option, none, some, List, [], ◌∷◌, ◌++◌, ℤ, Str, ◌==◌, leb_ℤ, if◌then◌else◌, is_empty,
}
use relkit.Prelude.Results.{Result, ok, err}
use relkit.Rup.{Fallback, FallbackRule, selectors_to_map}
use relkit.Envelope.{open_fallback_envelope}
use relkit.Selectors.{matches_client_apply}
use relkit.Sdk.State.{accepts_sequence, observe_fallback_sequence}
use relkit.Sdk.Ranking.{rank_url_strings}
use relkit.Inprocess.{
  Updater, M, ◌>>=◌, ◌>>◌, pure, remembered, update, get_fresh, Reason, fetch_failed, bad_envelope,
  not_verified, mismatch, older, Attempt, gave_up, product_required, keys_required,
  FallbackRequired,
}
use relkit.Inprocess.Sources.{resolve_index_plan}
use relkit.Inprocess.Target.{preferences}

-- The conditions of `matchFallbackRule`, and its loop.
unfoldable pub rule_applies : Updater → FallbackRule → Bool
rule_applies u rule =
    (leb_ℤ rule.min_code u.current_code && leb_ℤ u.current_code rule.max_code)
    && matches_client_apply (selectors_to_map rule.selectors) u.client_selectors (preferences u)

unfoldable pub match_fallback_rule : Updater → List (Option FallbackRule) → Option FallbackRule
match_fallback_rule u [] = none
match_fallback_rule u (none ∷ rest) = match_fallback_rule u rest
match_fallback_rule u (some rule ∷ rest) =
    let later = match_fallback_rule u rest in if rule_applies u rule then some rule else later

-- What the loop makes of a response, the mark being the last fallback sequence seen.
unfoldable pub judge_fallback : Updater → Option ℤ → Option Str → Result Reason Fallback
judge_fallback u mark none = err fetch_failed
judge_fallback u mark (some body) = elim (u.wire.unmarshal_envelope body) [
  | none ↦ err bad_envelope
  | some env ↦ elim (open_fallback_envelope u.wire (some env) u.trusted_keys) [
    | err _ ↦ err not_verified
    | ok doc ↦
        if doc.product == u.product
        then (if accepts_sequence doc.sequence mark then ok doc else err older)
        else err mismatch
  ]
]

unfoldable pub notice_of : Fallback → FallbackRule → FallbackRequired
notice_of doc rule = record {
  manual_url = rule.manual_url;
  message = rule.message;
  mandatory = rule.mandatory;
  sequence = doc.sequence;
  min_code = rule.min_code;
  max_code = rule.max_code;
}

unfoldable pub answer_of : Updater → Fallback → Option FallbackRequired
answer_of u doc = elim (match_fallback_rule u doc.rules) [
  | none ↦ none
  | some rule ↦ some (notice_of doc rule)
]

-- The loop of `CheckFallback`: the first document that is accepted decides.
unfoldable pub try_fallbacks :
    Updater → List Str → List Attempt → M (Option FallbackRequired × List Attempt)
try_fallbacks u [] attempts = pure (none, attempts)
try_fallbacks u (raw_url ∷ rest) attempts = get_fresh u.net raw_url >>= λ body. remembered >>= λ st.
    elim (judge_fallback u st.last_seen_fallback_sequence body) [
      | err reason ↦ try_fallbacks u rest (attempts ++ gave_up raw_url reason ∷ [])
      | ok doc ↦
          update u.net (λ _. observe_fallback_sequence doc.sequence)
          >> pure (answer_of u doc, attempts)
    ]

-- The URLs of the plan, or the configured ones where the plan has none.
unfoldable pub or_configured : Updater → List Str → List Str
or_configured u [] = u.fallback_urls
or_configured u (url ∷ urls) = url ∷ urls

unfoldable pub check_fallback : Updater → M (Option FallbackRequired × List Attempt)
check_fallback u = resolve_index_plan u >>= λ plan.
    let (_, planned, attempts) = plan in
    let urls = or_configured u planned in
    if is_empty urls
    then pure (none, attempts)
    else if u.product == []
    then pure (none, attempts ++ product_required ∷ [])
    else if is_empty u.trusted_keys
    then pure (none, attempts ++ keys_required ∷ [])
    else (remembered >>= λ st. try_fallbacks u (rank_url_strings st urls) attempts)
