-- ===== src/Plans/Filename.antt =====
-- internal/updater/filename.go on a system whose separator is `/`: the names that an artifact may have
-- below the staging directory. The rule on characters that only Windows forbids is left out.
use relkit.Prelude.{
  ℕ, ◌-◌, Bool, false, not, ◌&&◌, ◌||◌, Option, none, some, List, [], ◌∷◌, ◌++◌, map, Str, str,
  ◌==◌, eqb_ℕ, leb, if◌then◌else◌, any, is_empty,
}
use relkit.Prelude.Text.{has_prefix, split, clean}

unfoldable pub windows_reserved : List Str
windows_reserved =
    str "CON"
    ∷ str "PRN"
    ∷ str "AUX"
    ∷ str "NUL"
    ∷ str "COM1"
    ∷ str "COM2"
    ∷ str "COM3"
    ∷ str "COM4"
    ∷ str "COM5"
    ∷ str "COM6"
    ∷ str "COM7"
    ∷ str "COM8"
    ∷ str "COM9"
    ∷ str "LPT1"
    ∷ str "LPT2"
    ∷ str "LPT3"
    ∷ str "LPT4"
    ∷ str "LPT5"
    ∷ str "LPT6"
    ∷ str "LPT7"
    ∷ str "LPT8"
    ∷ str "LPT9"
    ∷ []

-- `strings.Map(unicode.ToUpper, base)` on ASCII
upper_byte : ℕ → ℕ
upper_byte c = if leb 97 c && leb c 122 then c - 32 else c

unfoldable pub before_dot : Str → Str
before_dot [] = []
before_dot (c ∷ rest) = let later = before_dot rest in if eqb_ℕ c 46 then [] else c ∷ later

-- `strings.ReplaceAll(name, "\\", "/")`
unfoldable pub with_slashes : Str → Str
with_slashes name = map (λ c. if eqb_ℕ c 92 then 47 else c) name

has_drive : Str → Bool
has_drive (_ ∷ c ∷ _) = eqb_ℕ c 58
has_drive _ = false

unfoldable pub is_reserved : Str → Bool
unfolding windows_reserved upper_byte before_dot
is_reserved part =
    let upper = map upper_byte (before_dot part) in any (λ r. r == upper) windows_reserved

-- An element of a path that stays where it is.
unfoldable pub is_plain : Str → Bool
is_plain part = not (part == [] || part == str "." || part == str "..")

unfoldable pub legal_part : Str → Bool
legal_part part = is_plain part && not (is_reserved part)

-- `ValidateArtifactFilename`: whether there is no error.
unfoldable pub validate_artifact_filename : Str → Bool
unfolding has_drive
validate_artifact_filename name =
    let normalized = with_slashes name in
    if is_empty name || has_prefix name (str "/") || any (λ c. eqb_ℕ c 0) name
    then false
    else if has_prefix normalized (str "/") || has_drive normalized
    then false
    else if any (λ part. not (legal_part part)) (split normalized 47)
    then false
    else not (has_prefix (clean normalized) (str ".."))

-- `filepath.Join` of two paths
unfoldable pub join_path : Str → Str → Str
join_path [] rel = clean rel
join_path (c ∷ root) rel = clean ((c ∷ root) ++ str "/" ++ rel)

-- `joinUnder`; `rel` is `filepath.Rel`.
unfoldable pub checked_below : Str → Option Str → Option Str
checked_below full none = none
checked_below full (some out) = if has_prefix out (str "..") then none else some full

unfoldable pub join_under : (Str → Str → Option Str) → Str → Str → Option Str
join_under rel root name =
    let full = join_path root (with_slashes name) in
    if validate_artifact_filename name then checked_below full (rel root full) else none
