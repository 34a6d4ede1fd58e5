-- ===== src/Examples/SdkRuns.antt =====
-- Runs of internal/sdk on small states.
use relkit.Prelude.{
  ◌≡◌, refl, true, false, Option, none, some, List, [], ◌∷◌, ◌*◌, pos, ℤ, Str, str, In, here, there,
  ◌⊎◌, ◌↔◌, leb_ℤ,
}
use relkit.Sdk.State.{
  UpdateState, empty_state, accepts_sequence, is_skipped, skip, Policy, should_check,
  next_allowed_at,
}
use relkit.Sdk.State.Marks.{observe_all, replay_refused, skip_iff, should_check_iff}
use relkit.Sdk.Ranking.{rank_by_learning, is_last}
use relkit.Sdk.Ranking.Laws.{rank-last_first}

replay_refused_example :
    accepts_sequence (pos 5) (observe_all (pos 6 ∷ pos 3 ∷ []) empty_state).last_seen_sequence
    ≡ false
replay_refused_example =
    replay_refused (pos 6 ∷ pos 3 ∷ []) empty_state (pos 6) (pos 5) (here refl) refl

four_is_not_skipped :
    (is_skipped (pos 4) (skip (pos 3) empty_state) ≡ true)
    ↔ ((pos 4 ≡ pos 3) ⊎ (is_skipped (pos 4) empty_state ≡ true))
four_is_not_skipped = skip_iff (pos 3) (pos 4) empty_state

abbrev daily : Policy
daily = record { after_success = pos 0; after_failure = pos 60 }

waits : next_allowed_at daily (some (pos 10)) (str "failure") ≡ some (pos 70)
unfolding next_allowed_at relkit.Prelude.◌+ℤ◌ relkit.Prelude.◌==◌
waits = refl

should_check_iff_example :
    should_check daily (some (pos 10)) (str "failure") (pos 69) ≡ leb_ℤ (pos 70) (pos 69)
should_check_iff_example = should_check_iff daily (pos 10) (str "failure") (pos 69) waits

abbrev seen : UpdateState
seen = record empty_state { last_successful_source_key = str "b" }

abbrev mirrors : List Str
mirrors = str "a" ∷ str "b" ∷ str "c" ∷ []

b_is_last : is_last seen (str "b") ≡ true
unfolding is_last relkit.Prelude.◌==◌
b_is_last = refl

rank-last_first_example :
    (y : Str) × (ys : List Str) × (rank_by_learning seen (λ url. url) mirrors ≡ y ∷ ys)
    × (is_last seen y ≡ true)
rank-last_first_example =
    rank-last_first seen (λ url. url) (str "b") mirrors (there (here refl)) b_is_last
