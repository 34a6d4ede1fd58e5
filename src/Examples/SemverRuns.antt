-- ===== src/Examples/SemverRuns.antt =====
-- Three versions in order of precedence.

use Prim.Native.Nat.Ordering.{lt, gt}
use relkit.Prelude.{◌≡◌, refl, Option, some, none, ◌⊎◌, inl, inr, Str, str}
use relkit.Semver.{compare_versions}
use relkit.Semver.Laws.{IsAtMost, compare_versions-swapped, compare_versions-IsAtMost}

abbrev early : Str
early = str "v1.2.0-rc.2"

abbrev late : Str
late = str "1.2.0-rc.10"

abbrev built : Str
built = str "1.2.0+b7"

early_before_late : compare_versions early late ≡ some lt
unfolding compare_versions relkit.Semver.compare_both relkit.Semver.parse_sem_version
    relkit.Prelude.Text.trim_prefix relkit.Prelude.Text.trim_space relkit.Semver.valid_identifiers
    relkit.Prelude.Text.split relkit.Semver.compare_parsed relkit.Semver.compare_core
    relkit.Semver.compare_prerelease relkit.Semver.compare_identifiers
    relkit.Semver.compare_identifier relkit.Prelude.ltb_str relkit.Semver.trim_zeros
early_before_late = refl

late_before_built : compare_versions late built ≡ some lt
unfolding compare_versions relkit.Semver.compare_both relkit.Semver.parse_sem_version
    relkit.Prelude.Text.trim_prefix relkit.Prelude.Text.trim_space relkit.Semver.valid_identifiers
    relkit.Prelude.Text.split relkit.Semver.compare_parsed relkit.Semver.compare_core
    relkit.Semver.compare_prerelease
late_before_built = refl

zeros_refused : compare_versions (str "1.02.0") late ≡ none
unfolding compare_versions relkit.Semver.compare_both relkit.Semver.parse_sem_version
    relkit.Prelude.Text.trim_prefix relkit.Prelude.Text.trim_space relkit.Prelude.Text.split
zeros_refused = refl

compare_versions-swapped_example : compare_versions late early ≡ some gt
compare_versions-swapped_example = compare_versions-swapped early late lt early_before_late

compare_versions-IsAtMost_example : IsAtMost early built
compare_versions-IsAtMost_example =
    compare_versions-IsAtMost early late built (inl early_before_late) (inl late_before_built)
