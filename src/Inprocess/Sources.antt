-- ===== src/Inprocess/Sources.antt =====
-- Where a check looks: `resolveIndexPlan`, `loadDirectory`, `servicesForChannel`, `uniqueStrings`.
use relkit.Prelude.{
  Bool, ◌||◌, Option, none, some, List, [], ◌∷◌, ◌++◌, map, ℤ, pos, Str, ◌==◌, ltb_str, ltb_ℤ,
  eqb_ℤ, if◌then◌else◌, any, is_empty,
}
use relkit.Prelude.Results.{Result, ok, err}
use relkit.Prelude.Sorting.{sort_by}
use relkit.Rup.{DirectoryService, UpdateDirectory}
use relkit.Envelope.{open_directory_envelope}
use relkit.Sdk.State.{
  accepts_sequence, record_source_failure, record_source_success, observe_directory_sequence,
}
use relkit.Sdk.Ranking.{rank_by_learning, rank_url_strings, directory_service_key}
use relkit.Inprocess.{
  Updater, M, ◌>>=◌, ◌>>◌, pure, remembered, update, get_fresh, Reason, fetch_failed, bad_envelope,
  not_verified, mismatch, older, no_services, Attempt, gave_up,
}

-- `indexCandidate`
pub record Candidate : Type 0 where
  pub url : Str
  pub preference_key : Str
  pub fallback_url : Str

-- What `loadDirectory` makes of a response, the mark being the last directory sequence seen.
unfoldable pub judge_directory : Updater → Option ℤ → Option Str → Result Reason UpdateDirectory
judge_directory u mark none = err fetch_failed
judge_directory u mark (some body) = elim (u.wire.unmarshal_envelope body) [
  | none ↦ err bad_envelope
  | some env ↦ elim (open_directory_envelope u.wire (some env) u.trusted_keys) [
    | err _ ↦ err not_verified
    | ok doc ↦
        if doc.product == u.product
        then (if accepts_sequence doc.directory_sequence mark then ok doc else err older)
        else err mismatch
  ]
]

unfoldable pub load_directory : Updater → Str → M (Result Reason UpdateDirectory)
load_directory u raw_url = get_fresh u.net raw_url >>= λ body.
    remembered >>= λ st. pure (judge_directory u st.last_seen_directory_sequence body)

-- The loop of `servicesForChannel`, and its comparison.
on_channel : Str → List (Option DirectoryService) → List DirectoryService
on_channel channel [] = []
on_channel channel (none ∷ rest) = on_channel channel rest
on_channel channel (some service ∷ rest) =
    let later = on_channel channel rest in
    if (service.channel == []) || (service.channel == channel) then service ∷ later else later

service_before : DirectoryService → DirectoryService → Bool
service_before a b =
    if eqb_ℤ a.priority b.priority then ltb_str a.id b.id else ltb_ℤ a.priority b.priority

unfoldable pub services_for_channel : UpdateDirectory → Str → List DirectoryService
unfolding on_channel service_before
services_for_channel doc channel = sort_by service_before (on_channel channel doc.services)

-- What the services of a directory add to the candidates and to the fallback URLs.
unfoldable pub candidates_of : List DirectoryService → List Candidate
candidates_of [] = []
candidates_of (service ∷ rest) =
    let later = candidates_of rest in
    if service.index_url == []
    then later
    else record {
      url = service.index_url;
      preference_key = directory_service_key service.id;
      fallback_url = service.fallback_url;
    }
      ∷ later

unfoldable pub fallbacks_of : List DirectoryService → List Str
fallbacks_of [] = []
fallbacks_of (service ∷ rest) =
    let later = fallbacks_of rest in
    if (service.index_url == []) || (service.fallback_url == [])
    then later
    else service.fallback_url ∷ later

-- The set `seen` is the list of what was kept.
unfoldable pub unique_after : List Str → List Str → List Str
unique_after seen [] = []
unique_after seen (s ∷ rest) =
    let without = unique_after seen rest in
    let later = unique_after (s ∷ seen) rest in
    if (s == []) || any (λ t. t == s) seen then without else s ∷ later

unfoldable pub unique_strings : List Str → List Str
unfolding unique_after
unique_strings l = unique_after [] l

-- The loop over the entry URLs: the first directory with candidates ends it.
unfoldable pub try_entries :
    Updater → List Str → List Str → List Attempt → M (List Candidate × List Str × List Attempt)
try_entries u [] fallback_urls attempts = pure ([], fallback_urls, attempts)
try_entries u (entry_url ∷ rest) fallback_urls attempts = load_directory u entry_url >>= λ loaded.
    elim loaded [
      | err reason ↦
          update u.net (record_source_failure entry_url)
          >> try_entries u rest fallback_urls (attempts ++ gave_up entry_url reason ∷ [])
      | ok doc ↦
          update u.net (record_source_success entry_url (pos 0))
          >> update u.net (λ _. observe_directory_sequence doc.directory_sequence)
          >> (let services = services_for_channel doc u.channel in
              let more = fallback_urls ++ fallbacks_of services in
              if is_empty (candidates_of services)
              then try_entries u rest more (attempts ++ gave_up entry_url no_services ∷ [])
              else pure (candidates_of services, more, attempts))
    ]

unfoldable pub plain_candidate : Str → Candidate
plain_candidate url = record { url = url; preference_key = url; fallback_url = [] }

unfoldable pub resolve_index_plan : Updater → M (List Candidate × List Str × List Attempt)
resolve_index_plan u = remembered >>= λ st.
    if is_empty u.entry_urls
    then pure
        (map plain_candidate (rank_url_strings st u.index_urls), unique_strings u.fallback_urls, [])
    else (try_entries u (rank_url_strings st u.entry_urls) u.fallback_urls [] >>= λ plan.
        remembered >>= λ later.
        let (candidates, fallback_urls, attempts) = plan in
        pure (
          rank_by_learning later (λ c. c.preference_key) candidates,
          unique_strings fallback_urls,
          attempts,
        ))
