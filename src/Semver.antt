-- ===== src/Semver.antt =====
-- Semantic versions of products (internal/vnext/catalog/semver.go): parsing and precedence.
pub mod Orders
pub mod Laws
use Prim.Native.Nat.{compare, Ordering}
use Prim.Native.Nat.Ordering.{lt, eq, gt}
use relkit.Prelude.{
  ℕ, ◌+◌, ◌-◌, ◌*◌, ◌^◌, Bool, true, false, not, ◌&&◌, ◌||◌, Option, none, some, List, [], ◌∷◌, Str,
  str, ◌==◌, ltb, leb, eqb_ℕ, ltb_str, if◌then◌else◌, length, is_empty, any,
}
use relkit.Prelude.Text.{trim_prefix, trim_space, split}
use relkit.Prelude.Options.{◌>>=◌}

pub record SemVersion : Type 0 where
  pub major : ℕ
  pub minor : ℕ
  pub patch : ℕ
  pub prerelease : List Str

is_digit : ℕ → Bool
is_digit c = leb 48 c && leb c 57

is_letter : ℕ → Bool
is_letter c = (leb 65 c && leb c 90) || (leb 97 c && leb c 122)

-- `digits`
unfoldable pub digits : Str → Bool
unfolding is_digit
digits value = not (any (λ c. not (is_digit c)) value) && not (is_empty value)

-- `validIdentifiers`
zero_first : Str → Bool
zero_first [] = false
zero_first (c ∷ rest) = eqb_ℕ c 48 && not (is_empty rest)

valid_part : Bool → Str → Bool
unfolding is_digit is_letter zero_first
valid_part prerelease part =
    if is_empty part
    then false
    else if any (λ c. not (is_digit c || is_letter c || eqb_ℕ c 45)) part
    then false
    else let numeric = not (any (λ c. not (is_digit c)) part) in
      not (prerelease && numeric && zero_first part)

valid_parts : Bool → List Str → Bool
unfolding valid_part
valid_parts prerelease parts = not (any (λ part. not (valid_part prerelease part)) parts)

unfoldable pub valid_identifiers : Str → Bool → Bool
unfolding valid_parts
valid_identifiers value prerelease = valid_parts prerelease (split value 46)

-- What stands before and after the first byte of a value, where it has that byte.
unfoldable pub cut : ℕ → Str → Option (Str × Str)
cut sep [] = none
cut sep (c ∷ rest) =
    let later = cut sep rest in
    if eqb_ℕ c sep
    then some ([], rest)
    else elim later [ none ↦ none | some (front, back) ↦ some (c ∷ front, back) ]

-- The value without its suffix, and the suffix, which `ok` has to accept where there is one.
unfoldable pub cut_checked : ℕ → (Str → Bool) → Str → Option (Str × Option Str)
unfolding cut
cut_checked sep ok value = elim (cut sep value) [
  | none ↦ some (value, none)
  | some (front, back) ↦ if ok back then some (front, some back) else none
]

number : ℕ → Str → ℕ
number total [] = total
number total (c ∷ rest) = number (10 * total + (c - 48)) rest

-- One of the three numbers; `strconv.ParseUint` is an error beyond 64 bits.
unfoldable pub component : Str → Option ℕ
unfolding digits zero_first number
component part =
    if digits part && not (zero_first part)
    then (if ltb (number 0 part) (2 ^ 64) then some (number 0 part) else none)
    else none

unfoldable pub three : List Str → List Str → Option SemVersion
unfolding component
three prerelease (a ∷ b ∷ c ∷ []) = do
  major ← component a
  minor ← component b
  patch ← component c
  some (record { major = major; minor = minor; patch = patch; prerelease = prerelease })
three prerelease _ = none

unfoldable pub identifiers : Option Str → List Str
identifiers none = []
identifiers (some suffix) = split suffix 46

unfoldable pub parse_core : Option (Str × Option Str) → Option SemVersion
unfolding three identifiers
parse_core none = none
parse_core (some (core, suffix)) = three (identifiers suffix) (split core 46)

unfoldable pub without_build : Option (Str × Option Str) → Option SemVersion
unfolding cut_checked parse_core
without_build none = none
without_build (some (value, build)) =
    parse_core
      (cut_checked 45 (λ suffix. not (is_empty suffix) && valid_identifiers suffix true) value)

-- `parseSemVersion`
unfoldable pub parse_sem_version : Str → Option SemVersion
unfolding cut_checked without_build
parse_sem_version raw =
    let value = trim_prefix (trim_space raw) (str "v") in
    if is_empty value
    then none
    else without_build
        (cut_checked 43 (λ build. not (is_empty build) && valid_identifiers build false) value)

-- `strings.TrimLeft` of zeros
unfoldable pub trim_zeros : Str → Str
trim_zeros [] = []
trim_zeros (c ∷ rest) = let later = trim_zeros rest in if eqb_ℕ c 48 then later else c ∷ rest

-- The results -1, 0 and 1 are `lt`, `eq` and `gt`. The last `switch` of `compareIdentifier`:
unfoldable pub compare_str : Str → Str → Ordering
compare_str left right = if ltb_str left right then lt else if ltb_str right left then gt else eq

unfoldable pub compare_numeric : Str → Str → Ordering
unfolding compare_str
compare_numeric left right =
    if ltb (length left) (length right)
    then lt
    else if ltb (length right) (length left)
    then gt
    else compare_str left right

-- `compareIdentifier`
unfoldable pub compare_identifier : Str → Str → Ordering
unfolding compare_numeric compare_str
compare_identifier left right =
    if digits left && digits right
    then compare_numeric (trim_zeros left) (trim_zeros right)
    else if digits left
    then lt
    else if digits right
    then gt
    else compare_str left right

-- The loop over the identifiers, and the comparison of the lengths after it.
unfoldable pub compare_identifiers : List Str → List Str → Ordering
compare_identifiers [] [] = eq
compare_identifiers [] (_ ∷ _) = lt
compare_identifiers (_ ∷ _) [] = gt
compare_identifiers (a ∷ left) (b ∷ right) =
    let rest = compare_identifiers left right in
    elim (compare_identifier a b) [ lt ↦ lt | eq ↦ rest | gt ↦ gt ]

-- A version without a prerelease comes after those that have one.
unfoldable pub compare_prerelease : List Str → List Str → Ordering
compare_prerelease [] [] = eq
compare_prerelease [] (_ ∷ _) = gt
compare_prerelease (_ ∷ _) [] = lt
compare_prerelease (a ∷ left) (b ∷ right) = compare_identifiers (a ∷ left) (b ∷ right)

-- The loop over the core, and what follows.
unfoldable pub compare_core : ℕ → ℕ → Ordering → Ordering
compare_core a b rest = if ltb a b then lt else if ltb b a then gt else rest

unfoldable pub compare_parsed : SemVersion → SemVersion → Ordering
compare_parsed a b = compare_core a.major b.major (
    compare_core a.minor b.minor
      (compare_core a.patch b.patch (compare_prerelease a.prerelease b.prerelease)))

unfoldable pub compare_both : Option SemVersion → Option SemVersion → Option Ordering
compare_both none b = none
compare_both (some a) none = none
compare_both (some a) (some b) = some (compare_parsed a b)

-- `CompareVersions`
unfoldable pub compare_versions : Str → Str → Option Ordering
compare_versions left right = compare_both (parse_sem_version left) (parse_sem_version right)

-- `isPrerelease`
unfoldable pub is_prerelease : Str → Option Bool
is_prerelease version = do
  parsed ← parse_sem_version version
  some (not (is_empty parsed.prerelease))
