-- ===== src/Inprocess/Force.antt =====
-- `CheckForce`: the throttle, the check of the index, and the fallback notice.
use relkit.Prelude.{
  Bool, true, false, not, ◌&&◌, Option, none, some, ◌++◌, ℤ, Str, str, if◌then◌else◌,
}
use relkit.Sdk.State.{
  skip, is_skipped, UpdateState, Policy, normalized_success, normalized_failure, should_check,
  next_allowed_at,
}
use relkit.Inprocess.{
  Updater, M, World, ◌>>=◌, ◌>>◌, pure, update, CheckResult, FallbackRequired, empty_result,
}
use relkit.Inprocess.Check.{check_index}
use relkit.Inprocess.Notice.{check_fallback}

-- `policy`: a missing interval becomes the default one.
unfoldable pub effective_policy : Updater → Policy
effective_policy u = record {
  after_success = normalized_success u.policy;
  after_failure = normalized_failure u.policy;
}

-- The result of a check that is not due.
unfoldable pub not_due : Updater → UpdateState → CheckResult
not_due u st = record empty_result {
  throttled = true;
  next_allowed_at = next_allowed_at (effective_policy u) st.last_check_at st.last_result;
}

unfoldable pub due : Updater → World → Bool
due u w =
    should_check (effective_policy u) w.memory.last_check_at w.memory.last_result
      (u.net.now w.calls)

-- Stores the time and the result of the check.
unfoldable pub stamp_check : Str → ℤ → UpdateState → UpdateState
stamp_check last_result now s = record s { last_check_at = some now; last_result = last_result }

unfoldable pub only_notice : Updater → CheckResult → FallbackRequired → CheckResult
only_notice u normal notice = record empty_result {
  fallback = some notice;
  recovery = u.recovery;
  attempts = normal.attempts;
  sequence = notice.sequence;
}

-- The last cases of the `switch`, by `UpToDate` and `Err`: the text that is remembered, and the
-- result.
unfoldable pub by_error : Updater → CheckResult → Bool → Option Str → Str × CheckResult
by_error u normal true error = (str "success", normal)
by_error u normal false (some _) = (str "failure", record normal { recovery = u.recovery })
by_error u normal false none = (str "success", normal)

-- The cases without an update that is available, and the whole `switch`.
unfoldable pub without_update : Updater → CheckResult → Option FallbackRequired → Str × CheckResult
without_update u normal (some notice) = (str "fallback", only_notice u normal notice)
without_update u normal none = by_error u normal normal.up_to_date normal.error

unfoldable pub conclusion : Updater → CheckResult → Option FallbackRequired → Str × CheckResult
conclusion u normal notice = elim normal.available [
  | some _ ↦ (str "available", record normal { fallback = notice })
  | none ↦ without_update u normal notice
]

unfoldable pub check_now : Updater → M CheckResult
check_now u = check_index u >>= λ normal. check_fallback u >>= λ answer.
    let (notice, attempts) = answer in
    let (last_result, result) =
      conclusion u (record normal { attempts = normal.attempts ++ attempts }) notice in
    update u.net (stamp_check last_result) >> pure result

unfoldable pub check_force : Updater → Bool → M CheckResult
check_force u force w =
    if not force && not (due u w) then (not_due u w.memory, w) else check_now u w

-- `Check`, `Skip` and `IsSkipped`.
unfoldable pub check : Updater → M CheckResult
check u = check_force u false

unfoldable pub skip_version : Updater → ℤ → M (Unit {0})
skip_version u code = update u.net (λ _. skip code)

unfoldable pub is_skipped_version : ℤ → World → Bool
is_skipped_version code w = is_skipped code w.memory
