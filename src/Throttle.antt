-- ===== src/Throttle.antt =====
-- internal/updater/policy.go: how often the engine checks. Durations and instants are nanoseconds; a
-- zero time is `none`.
use relkit.Prelude.{
  ◌≡◌, Bool, true, false, Option, none, some, ℤ, pos, ◌*◌, ◌+ℤ◌, ◌≤ℤ◌, leb_ℤ, ltb_ℤ, +ℤ_parts,
  arith, if◌then◌else◌,
}

abbrev pub default_success : ℤ
default_success = pos (24 * 3600 * 1_000_000_000)

abbrev pub default_failure : ℤ
default_failure = pos (3600 * 1_000_000_000)

abbrev pub min_check_interval : ℤ
min_check_interval = pos (5 * 60 * 1_000_000_000)

-- The two fields of `CheckPolicy` that are read.
pub record CheckPolicy : Type 0 where
  pub after_success : Option ℤ
  pub after_failure : Option ℤ

pub data LastResult : Type 0 where
  succeeded failed : LastResult

given : ℤ → Option ℤ → ℤ
given fallback none = fallback
given fallback (some duration) = duration

at_least_min : ℤ → ℤ
at_least_min duration = if ltb_ℤ duration min_check_interval then min_check_interval else duration

-- `clampPolicy`
unfoldable pub clamp_policy : Option CheckPolicy → ℤ × ℤ
unfolding given at_least_min
clamp_policy none = (at_least_min default_success, at_least_min default_failure)
clamp_policy (some p) = (
  at_least_min (given default_success p.after_success),
  at_least_min (given default_failure p.after_failure),
)

unfoldable pub wait_for : LastResult → ℤ × ℤ → ℤ
wait_for succeeded waits = waits.0
wait_for failed waits = waits.1

-- `shouldCheck`
unfoldable pub should_check_at :
    Option ℤ → LastResult → Option CheckPolicy → Bool → ℤ → Bool × Option ℤ
should_check_at none last policy force now = (true, none)
should_check_at (some last_check) last policy force now =
    let next = last_check +ℤ wait_for last (clamp_policy policy) in
    if force then (true, some next) else (leb_ℤ next now, some next)

min-at_least_min : (d : ℤ) → min_check_interval ≤ℤ at_least_min d
unfolding at_least_min
min-at_least_min d = ground arith

min-wait :
    (last : LastResult) (policy : Option CheckPolicy)
    → min_check_interval ≤ℤ wait_for last (clamp_policy policy)
unfolding wait_for clamp_policy
min-wait succeeded none = min-at_least_min default_success
min-wait succeeded (some p) = min-at_least_min (given default_success p.after_success)
min-wait failed none = min-at_least_min default_failure
min-wait failed (some p) = min-at_least_min (given default_failure p.after_failure)

due-far :
    (last_check wait now : ℤ)
    → min_check_interval ≤ℤ wait
    → leb_ℤ (last_check +ℤ wait) now ≡ true
    → last_check +ℤ min_check_interval ≤ℤ now
due-far last_check wait now m h =
    ground (arith, +ℤ_parts last_check wait, +ℤ_parts last_check min_check_interval)

-- Whatever policy a host asks for, when the engine's `shouldCheck` allows a check that is not
-- forced, at least `MinCheckInterval` has passed since the last one.
pub should_check-far :
    (last_check : ℤ) (last : LastResult) (policy : Option CheckPolicy) (now : ℤ)
    → (should_check_at (some last_check) last policy false now).0 ≡ true
    → last_check +ℤ min_check_interval ≤ℤ now
unfolding should_check_at
should_check-far last_check last policy now h =
    due-far last_check (wait_for last (clamp_policy policy)) now (min-wait last policy) h
