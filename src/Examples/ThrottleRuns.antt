-- ===== src/Examples/ThrottleRuns.antt =====
-- The throttle of the engine, with a policy that asks for no pause at all.
use relkit.Prelude.{◌≡◌, refl, true, false, some, pos, ◌+ℤ◌, ◌≤ℤ◌}
use relkit.Throttle.{CheckPolicy, failed, min_check_interval, should_check_at, should_check-far}

abbrev hasty : CheckPolicy
hasty = record { after_success = some (pos 0); after_failure = some (pos 0) }

allowed : (should_check_at (some (pos 5)) failed (some hasty) false (pos 300_000_000_005)).0 ≡ true
unfolding should_check_at ◌+ℤ◌ relkit.Throttle.wait_for relkit.Throttle.clamp_policy
allowed = refl

should_check-far_example : pos 5 +ℤ min_check_interval ≤ℤ pos 300_000_000_005
should_check-far_example =
    should_check-far (pos 5) failed (some hasty) (pos 300_000_000_005) allowed
