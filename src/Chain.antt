-- ===== src/Chain.antt =====
-- internal/chain/chain.go: which version a client goes to next, and the path that it follows.
-- The loop of `ResolveUpgradePath` takes fuel, one round for each entry of the index and one more.
pub mod Select
pub mod Path
pub mod Optimal
pub mod Head
pub mod Reachability
use relkit.Prelude.{
  Str, str, ◌==◌, ltb_str, ◌++◌, keep, pos, ℕ, zero, suc, Bool, true, false, ◌&&◌, not, Option,
  none, some, List, [], ◌∷◌, map, ℤ, length, ltb_ℤ, leb_ℤ, eqb_ℤ, if◌then◌else◌, is_empty, any, ltb,
}
use mathlib.Core.Option
use relkit.Rup.{VersionNode, Index}

-- The body of the loop of `SelectNextTarget`: the best node after one more.
better_target : ℤ → Option VersionNode → VersionNode → Option VersionNode
better_target current best node =
    if node.yanked
    then best
    else if leb_ℤ node.code current
    then best
    else if ltb_ℤ current node.min_from
    then best
    else elim best [
      | none ↦ some node
      | some b ↦ if ltb_ℤ b.code node.code then some node else some b
    ]

scan_targets : ℤ → Option VersionNode → List (Option VersionNode) → Option VersionNode
scan_targets current best [] = best
scan_targets current best (none ∷ rest) = scan_targets current best rest
scan_targets current best (some node ∷ rest) =
    scan_targets current (better_target current best node) rest

unfoldable pub select_next_target : Index → ℤ → Option VersionNode
unfolding scan_targets better_target
select_next_target index current = scan_targets current none index.versions

-- `ResolveUpgradePath`; `none` means that the fuel ran out.
pub walk : ℕ → Index → ℤ → Option (List VersionNode)
walk zero index code = none
walk (suc fuel) index code = elim (select_next_target index code) [
  | none ↦ some []
  | some target ↦ Option.map (λ path. target ∷ path) (walk fuel index target.code)
]

or_nil : Option (List VersionNode) → List VersionNode
or_nil none = []
or_nil (some path) = path

unfoldable pub resolve_upgrade_path : Index → ℤ → List VersionNode
unfolding walk or_nil
resolve_upgrade_path index current_code =
    or_nil (walk (suc (length index.versions)) index current_code)

-- `model.HasMinSupported` of a document that is there.
abbrev pub has_min_supported : Index → Bool
has_min_supported index = index.has_min_supported

unfoldable pub is_mandatory : Index → ℤ → Bool
is_mandatory index current_code = has_min_supported index && ltb_ℤ current_code index.min_supported

-- The body of the loop of `FindHead`, and the loop.
better_head : Option VersionNode → VersionNode → Option VersionNode
better_head head node = if node.yanked then head else elim head [
  | none ↦ some node
  | some h ↦ if ltb_ℤ h.code node.code then some node else some h
]

scan_head : Option VersionNode → List (Option VersionNode) → Option VersionNode
scan_head head [] = head
scan_head head (none ∷ rest) = scan_head head rest
scan_head head (some node ∷ rest) = scan_head (better_head head node) rest

unfoldable pub find_head : Index → Option VersionNode
unfolding scan_head better_head
find_head index = scan_head none index.versions

-- `path[len(path)-1].Code == head.Code`, for a path that is not empty.
abbrev ends_at : ℤ → List VersionNode → Bool
ends_at code [] = false
ends_at code (node ∷ []) = eqb_ℤ node.code code
ends_at code (node ∷ next ∷ rest) = ends_at code (next ∷ rest)

unfoldable pub reaches_head : Index → VersionNode → ℤ → Bool
reaches_head index head code = ends_at head.code (resolve_upgrade_path index code)
