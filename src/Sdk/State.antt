-- ===== src/Sdk/State.antt =====
-- internal/sdk/state.go and internal/sdk/policy.go. Instants and durations are integers
-- (nanoseconds); `time.Now` is an argument.
pub mod Marks
use relkit.Prelude.{
  ℕ, zero, suc, ◌+◌, ◌*◌, Bool, true, false, not, Option, none, some, List, [], ◌∷◌, ◌++◌, ℤ, pos,
  Str, str, ◌==◌, leb_ℤ, ltb_ℤ, eqb_ℤ, ◌+ℤ◌, ◌-ℤ◌, if◌then◌else◌, any,
}
use relkit.Prelude.Dicts.{Dict, lookup, insert}

-- `AcceptsSequence`.
unfoldable pub accepts_sequence : ℤ → Option ℤ → Bool
accepts_sequence sequence none = true
accepts_sequence sequence (some last) = leb_ℤ last sequence

-- The counters only grow from 0, so they are natural numbers.
pub record SourceStat : Type 0 where
  pub successes : ℕ
  pub failures : ℕ
  pub consecutive_failures : ℕ
  pub last_bytes_per_second : Option ℤ
  pub last_success_at : Option ℤ
  pub last_failure_at : Option ℤ

abbrev pub no_stat : SourceStat
no_stat = record {
  successes = 0;
  failures = 0;
  consecutive_failures = 0;
  last_bytes_per_second = none;
  last_success_at = none;
  last_failure_at = none;
}

pub record UpdateState : Type 0 where
  pub last_check_at : Option ℤ
  pub last_result : Str
  pub last_seen_sequence : Option ℤ
  pub last_seen_fallback_sequence : Option ℤ
  pub last_seen_directory_sequence : Option ℤ
  pub last_successful_source_key : Str
  pub source_stats : Dict SourceStat
  pub skipped : List ℤ

abbrev pub empty_state : UpdateState
empty_state = record {
  last_check_at = none;
  last_result = [];
  last_seen_sequence = none;
  last_seen_fallback_sequence = none;
  last_seen_directory_sequence = none;
  last_successful_source_key = [];
  source_stats = [];
  skipped = [];
}

-- The body that the three `Observe…Sequence` methods share.
unfoldable pub raise_mark : Option ℤ → ℤ → Option ℤ
raise_mark none sequence = some sequence
raise_mark (some last) sequence = if ltb_ℤ last sequence then some sequence else some last

unfoldable pub observe_sequence : ℤ → UpdateState → UpdateState
observe_sequence sequence s = record s {
  last_seen_sequence = raise_mark s.last_seen_sequence sequence;
}

unfoldable pub observe_fallback_sequence : ℤ → UpdateState → UpdateState
observe_fallback_sequence sequence s = record s {
  last_seen_fallback_sequence = raise_mark s.last_seen_fallback_sequence sequence;
}

unfoldable pub observe_directory_sequence : ℤ → UpdateState → UpdateState
observe_directory_sequence sequence s = record s {
  last_seen_directory_sequence = raise_mark s.last_seen_directory_sequence sequence;
}

-- `SourceStats[key]`, or a fresh entry.
unfoldable pub stat_of : Str → UpdateState → SourceStat
stat_of key s = elim (lookup key s.source_stats) [ none ↦ no_stat | some stat ↦ stat ]

unfoldable pub record_source_success : Str → ℤ → ℤ → UpdateState → UpdateState
unfolding stat_of
record_source_success key bytes_per_second now s =
    if key == []
    then s
    else let stat = stat_of key s in
      record s {
        source_stats =
            insert key
              (record stat {
                successes = suc stat.successes;
                consecutive_failures = 0;
                last_success_at = some now;
                last_bytes_per_second =
                    if ltb_ℤ (pos 0) bytes_per_second
                    then some bytes_per_second
                    else stat.last_bytes_per_second;
              })
              s.source_stats;
        last_successful_source_key = key;
      }

unfoldable pub record_source_failure : Str → ℤ → UpdateState → UpdateState
unfolding stat_of
record_source_failure key now s =
    if key == []
    then s
    else let stat = stat_of key s in
      record s {
        source_stats =
            insert key
              (record stat {
                failures = suc stat.failures;
                consecutive_failures = suc stat.consecutive_failures;
                last_failure_at = some now;
              })
              s.source_stats;
      }

unfoldable pub is_skipped : ℤ → UpdateState → Bool
is_skipped code s = any (λ c. eqb_ℤ c code) s.skipped

-- `sort.Ints`.
insert_int : ℤ → List ℤ → List ℤ
insert_int c [] = c ∷ []
insert_int c (d ∷ rest) =
    let later = insert_int c rest in if ltb_ℤ d c then d ∷ later else c ∷ d ∷ rest

sort_ints : List ℤ → List ℤ
unfolding insert_int
sort_ints [] = []
sort_ints (c ∷ rest) = insert_int c (sort_ints rest)

unfoldable pub skip : ℤ → UpdateState → UpdateState
unfolding sort_ints is_skipped
skip code s =
    if is_skipped code s then s else record s { skipped = sort_ints (s.skipped ++ code ∷ []) }

pub record Policy : Type 0 where
  pub after_success : ℤ
  pub after_failure : ℤ

-- One second, in nanoseconds.
abbrev pub second : ℕ
second = 1_000_000_000

unfoldable pub normalized_success : Policy → ℤ
normalized_success p =
    if leb_ℤ p.after_success (pos 0) then pos (24 * 3600 * second) else p.after_success

unfoldable pub normalized_failure : Policy → ℤ
normalized_failure p =
    if leb_ℤ p.after_failure (pos 0) then pos (3600 * second) else p.after_failure

-- The interval that the last result asks for.
wait_after : Policy → Str → ℤ
unfolding normalized_success normalized_failure
wait_after p last_result =
    if last_result == str "failure" then normalized_failure p else normalized_success p

unfoldable pub should_check : Policy → Option ℤ → Str → ℤ → Bool
unfolding wait_after
should_check p none last_result now = true
should_check p (some last) last_result now = leb_ℤ (wait_after p last_result) (now -ℤ last)

-- `none` is the zero time.
unfoldable pub next_allowed_at : Policy → Option ℤ → Str → Option ℤ
unfolding wait_after
next_allowed_at p none last_result = none
next_allowed_at p (some last) last_result = some (last +ℤ wait_after p last_result)
