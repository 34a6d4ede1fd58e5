-- ===== src/Chain/Reachability.antt =====
-- `ValidateReachability` and `UnreachableStartCodes` of internal/chain/chain.go: what a publisher
-- checks of an index before it is signed.
pub mod Sound
use relkit.Prelude.{
  Str, str, ◌==◌, ltb_str, ◌++◌, keep, pos, ℕ, zero, suc, Bool, true, false, ◌&&◌, not, Option,
  none, some, List, [], ◌∷◌, map, ℤ, length, ltb_ℤ, leb_ℤ, eqb_ℤ, if◌then◌else◌, is_empty, any, ltb,
}
use relkit.Rup.{VersionNode, Index}
use relkit.Chain.{has_min_supported, find_head, reaches_head}

-- A Go set of strings, as the list of its elements.
add_code : List Str → Str → List Str
add_code set value = if any (λ s. s == value) set then set else set ++ value ∷ []

add_if : Bool → List Str → Str → List Str
unfolding add_code
add_if test set value = if test then add_code set value else set

-- `sort.Strings`.
insert_str : Str → List Str → List Str
insert_str s [] = s ∷ []
insert_str s (t ∷ rest) = if ltb_str t s then t ∷ insert_str s rest else s ∷ t ∷ rest

unfoldable pub sorted_codes : List Str → List Str
unfolding insert_str
sorted_codes [] = []
sorted_codes (s ∷ rest) = insert_str s (sorted_codes rest)

-- `sort.Ints` of the keys of a map: ascending, each key once.
insert_int : ℤ → List ℤ → List ℤ
insert_int c [] = c ∷ []
insert_int c (d ∷ rest) =
    let later = insert_int c rest in
    if ltb_ℤ c d then c ∷ d ∷ rest else if eqb_ℤ c d then d ∷ rest else d ∷ later

unfoldable pub sorted_keys : List ℤ → List ℤ
unfolding insert_int
sorted_keys [] = []
sorted_keys (c ∷ rest) = insert_int c (sorted_keys rest)

-- The codes of the nodes that are there, one for each node.
abbrev pub node_codes : List (Option VersionNode) → List ℤ
node_codes [] = []
node_codes (none ∷ rest) = node_codes rest
node_codes (some node ∷ rest) = node.code ∷ node_codes rest

abbrev count_code : ℤ → List ℤ → ℕ
count_code c [] = 0
count_code c (d ∷ rest) = if eqb_ℤ d c then suc (count_code c rest) else count_code c rest

duplicated : List ℤ → Bool
duplicated codes = any (λ c. ltb 1 (count_code c codes)) codes

-- A published code below the head from which the head is out of reach.
stranded_below : Index → VersionNode → ℤ → Bool
stranded_below index head code = ltb_ℤ code head.code && not (reaches_head index head code)

-- The block on the minimum: whether there is one, whether it is above the head, and whether a
-- client at the minimum is stranded.
minimum_errors : Bool → Bool → Bool → List Str → List Str
unfolding add_if add_code
minimum_errors has_minimum above_head stranded errors =
    if has_minimum
    then (if above_head
        then add_code errors (str "min-supported-above-head")
        else add_if stranded errors (str "min-supported-unreachable"))
    else errors

-- What the rest of `ValidateReachability` adds once there is a head.
head_errors : Index → VersionNode → List Str → List Str
unfolding minimum_errors stranded_below
head_errors index head errors =
    minimum_errors (has_min_supported index) (ltb_ℤ head.code index.min_supported)
      (stranded_below index head index.min_supported)
      (add_if (any (stranded_below index head) (sorted_keys (node_codes index.versions))) errors
        (str "unreachable"))

-- The errors and the warnings, each in alphabetical order.
unfoldable pub validate_reachability : Index → List Str × List Str
unfolding duplicated head_errors sorted_codes
validate_reachability index =
    let errors = add_if (duplicated (node_codes index.versions)) [] (str "duplicate-code") in
    elim (find_head index) [
      | none ↦ (sorted_codes (add_code errors (str "no-head")), [])
      | some head ↦ (
        sorted_codes (head_errors index head errors),
        sorted_codes (
            add_if (ltb_ℤ (pos 0) head.code && not (reaches_head index head (pos 0))) []
              (str "zero-unreachable")),
      )
    ]

-- `UnreachableStartCodes`: 0, every published code and the minimum, where they cannot get to the head.
unfoldable pub unreachable_start_codes : Index → List ℤ
unfolding stranded_below
unreachable_start_codes index = elim (find_head index) [
  | none ↦ []
  | some head ↦ keep (stranded_below index head) (
      sorted_keys (
        pos 0
        ∷ (if has_min_supported index
            then index.min_supported ∷ node_codes index.versions
            else node_codes index.versions)))
]
