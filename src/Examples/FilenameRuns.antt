-- ===== src/Examples/FilenameRuns.antt =====
-- Names of artifacts that are taken and refused.
use relkit.Prelude.{◌≡◌, refl, true, false, Option, some, none, List, [], ◌∷◌, ◌++◌, Str, str}
use relkit.Prelude.Text.{has_prefix, split, elements, render}
use relkit.Plans.Filename.{join_under, validate_artifact_filename, with_slashes}
use relkit.Plans.Joined.{AllPlain, join_under-below}

-- `filepath.Rel` on the one path that is asked for
abbrev from_root : Str → Str → Option Str
from_root root full = some (str "a/b.zip")

joined_name :
    join_under from_root (str "/d/staging") (str "a\\b.zip") ≡ some (str "/d/staging/a/b.zip")
unfolding join_under relkit.Plans.Filename.checked_below validate_artifact_filename has_prefix
    with_slashes split relkit.Plans.Filename.legal_part relkit.Plans.Filename.is_plain
    relkit.Prelude.◌==◌ relkit.Plans.Filename.is_reserved relkit.Prelude.Text.clean
    relkit.Plans.Filename.join_path
joined_name = refl

escape_refused : validate_artifact_filename (str "a/../../b") ≡ false
unfolding validate_artifact_filename has_prefix with_slashes split relkit.Plans.Filename.legal_part
    relkit.Plans.Filename.is_plain relkit.Prelude.◌==◌ relkit.Plans.Filename.is_reserved
escape_refused = refl

device_refused : validate_artifact_filename (str "con.txt") ≡ false
unfolding validate_artifact_filename has_prefix with_slashes split relkit.Plans.Filename.legal_part
    relkit.Plans.Filename.is_plain relkit.Prelude.◌==◌ relkit.Plans.Filename.is_reserved
device_refused = refl

join_under-below_example :
    (str "/d/staging/a/b.zip"
      ≡ render
          (has_prefix (str "/d/staging") (str "/"))
          (elements (str "/d/staging") ++ split (with_slashes (str "a\\b.zip")) 47))
    × AllPlain (split (with_slashes (str "a\\b.zip")) 47)
join_under-below_example =
    join_under-below from_root 47 (str "d/staging") (str "a\\b.zip") (str "/d/staging/a/b.zip")
      joined_name
