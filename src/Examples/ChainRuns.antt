-- ===== src/Examples/ChainRuns.antt =====
-- Runs of internal/chain/chain.go on an index of four versions: 1, 2, 3, which only a client at 2
-- may install, and 4, which is yanked.
use relkit.Prelude.{
  ◌≡◌, refl, ◌≤◌, ℕ, Bool, true, false, none, some, [], ◌∷◌, ℤ, pos, ◌≤ℤ◌, ◌↔◌, str, here, there,
  arith, length,
}
use relkit.Rup.{VersionNode, Index}
use relkit.Chain.{select_next_target, walk, resolve_upgrade_path, find_head, reaches_head}
use relkit.Chain.Path.{resolve_total, resolve-some}
use relkit.Chain.Optimal.{
  Hops, final, hop, stay, resolve-Hops, resolve-furthest, resolve-shortest, final_mono,
}
use relkit.Chain.Head.{IsHead, find_head-IsHead, reaches-Hops, reaches_mono}
use relkit.Chain.Reachability.{validate_reachability, sorted_codes, sorted_keys}
use relkit.Chain.Reachability.Sound.{Serves, Gets, validate-Serves, validate-zero}

abbrev node : ℤ → ℤ → Bool → VersionNode
node code min_from yanked = record {
  version = [];
  code = code;
  min_from = min_from;
  yanked = yanked;
  manifest = none;
  released_at = [];
  notes = [];
  notes_url = [];
  resolution_digest = [];
  operator_deployment_id = [];
  resolution_identity = [];
}

abbrev v2 : VersionNode
v2 = node (pos 2) (pos 0) false

abbrev v3 : VersionNode
v3 = node (pos 3) (pos 2) false

abbrev ladder : Index
ladder = record {
  schema = [];
  product = str "p";
  channel = str "stable";
  sequence = pos 7;
  generated_at = [];
  min_supported = pos 1;
  has_min_supported = true;
  expires_at = [];
  versions =
      some (node (pos 1) (pos 0) false)
      ∷ none
      ∷ some v3
      ∷ some v2
      ∷ some (node (pos 4) (pos 0) true)
      ∷ [];
}

first_target : select_next_target ladder (pos 1) ≡ some v2
unfolding select_next_target
first_target = refl

whole_path : resolve_upgrade_path ladder (pos 1) ≡ v2 ∷ v3 ∷ []
unfolding resolve_upgrade_path select_next_target
whole_path = refl

head_is_v3 : find_head ladder ≡ some v3
unfolding find_head
head_is_v3 = refl

no_errors : (validate_reachability ladder).0 ≡ []
unfolding validate_reachability sorted_codes sorted_keys find_head reaches_head resolve_upgrade_path
    select_next_target
no_errors = refl

no_warnings : (validate_reachability ladder).1 ≡ []
unfolding validate_reachability sorted_codes sorted_keys find_head reaches_head resolve_upgrade_path
    select_next_target
no_warnings = refl

one_hop : Hops ladder 1 (pos 1) (pos 2)
one_hop =
    hop v2
      (record {
        listed = there (there (there (here refl)));
        may = record { available = refl; upward = omega arith; reachable = omega arith };
      })
      (stay (pos 2))

validate-Serves_example : (h : VersionNode) × (find_head ladder ≡ some h) × Serves ladder h
validate-Serves_example = validate-Serves ladder no_errors

ladder_from_zero : Gets ladder v3 (pos 0)
ladder_from_zero =
    validate-zero ladder v3 (pos 0) no_warnings head_is_v3 (omega arith) (omega arith)

resolve-furthest_example : pos 2 ≤ℤ final ladder (pos 1)
resolve-furthest_example = resolve-furthest ladder 1 (pos 1) (pos 2) one_hop

resolve-shortest_example :
    length (resolve_upgrade_path ladder (pos 1)) ≤ length (resolve_upgrade_path ladder (pos 1))
resolve-shortest_example = resolve-shortest ladder _ (pos 1) (resolve-Hops ladder (pos 1))

resolve-Hops_example :
    Hops ladder (length (resolve_upgrade_path ladder (pos 1))) (pos 1) (final ladder (pos 1))
resolve-Hops_example = resolve-Hops ladder (pos 1)

reaches-Hops_example :
    (reaches_head ladder v3 (pos 1) ≡ true) ↔ ((n : ℕ) × Hops ladder n (pos 1) v3.code)
reaches-Hops_example =
    reaches-Hops ladder v3 (pos 1) (find_head-IsHead ladder head_is_v3) (omega arith)

one_reaches : reaches_head ladder v3 (pos 1) ≡ true
unfolding reaches_head resolve_upgrade_path select_next_target
one_reaches = refl

reaches_mono_example : reaches_head ladder v3 (pos 2) ≡ true
reaches_mono_example =
    reaches_mono ladder v3 (pos 1) (pos 2) (find_head-IsHead ladder head_is_v3) (omega arith)
      (omega arith) one_reaches

resolve_total_example : walk 6 ladder (pos 1) ≡ some (resolve_upgrade_path ladder (pos 1))
resolve_total_example = resolve_total ladder (pos 1)

resolve-some_example :
    resolve_upgrade_path ladder (pos 1) ≡ v2 ∷ resolve_upgrade_path ladder (pos 2)
resolve-some_example = resolve-some ladder (pos 1) first_target

find_head-IsHead_example : IsHead ladder v3
find_head-IsHead_example = find_head-IsHead ladder head_is_v3

final_mono_example : final ladder (pos 0) ≤ℤ final ladder (pos 1)
final_mono_example = final_mono ladder (pos 0) (pos 1) (omega arith)
