-- ===== src/Library/Pruned.antt =====
-- What an install's pruning leaves in place.
use relkit.Prelude.{
  Bool, true, false, not, ◌&&◌, Option, List, [], ◌∷◌, ℤ, pos, Str, ◌==◌, ◌≡◌, ◌≢◌, ◌⊎◌, inl, inr,
  refl, subst, In, In-cons, In-keep, In-any, Bool-cases, if◌then◌else◌, keep, eqb_ℤ, eqb_ℤ_iff,
  leb_ℤ, arith, length,
}
use relkit.Prelude.Sets.{contains, add_key, In-contains, In-add_key, In-add_key_old}
use relkit.Library.{ActivePointer, Entry, Tree, path_of}
use relkit.Library.Changes.{Trashing}
use relkit.Library.Prune.{
  Pruning, two, retained, add_path, named_paths, is_hidden, is_item, is_reserved_code, add_reserved,
  newest_first, fill, kept_paths, to_prune, is_movable, prune_versions, installed_code,
}

-- Why a version has to stay: it is the active one or the one just installed, the previous one where the
-- budget has room for it, its code is reserved, or a running process uses it.
pub data HasToStay (p : Pruning) (t : Tree) (e : Entry) : Type 0 where
  pointed : path_of e ≡ p.current.path → HasToStay p t e
  just_installed : path_of e ≡ p.extra_keep → HasToStay p t e
  previous_kept : path_of e ≡ p.current.previous → leb_ℤ two (retained p) ≡ true → HasToStay p t e
  reserved_code :
      e.is_dir ≡ true
      → In (installed_code t.active e) p.reserved
      → installed_code t.active e ≢ pos 0
      → HasToStay p t e
  running : In e.name p.in_use → HasToStay p t e

In-add_path : (path : Str) (kept : List Str) → (path == []) ≡ false → In path (add_path path kept)
unfolding add_path
In-add_path path kept e = rw e (In-add_key path kept)

In-add_path_old : {j : Str} (path : Str) (kept : List Str) → In j kept → In j (add_path path kept)
unfolding add_path
In-add_path_old path kept i = elim (Bool-cases (path == [])) [
  | inl e ↦ rw e i
  | inr e ↦ rw e (In-add_key_old path kept i)
]

path_is_some : (e : Entry) → (path_of e == []) ≡ false
unfolding path_of ◌==◌
path_is_some e = refl

In-named :
    (p : Pruning) (path : Str)
    → In path (add_path p.extra_keep (add_path p.current.path []))
    → In path (named_paths p)
unfolding named_paths
In-named p path i = elim (Bool-cases (leb_ℤ two (retained p))) [
  | inl e ↦ rw e (In-add_path_old p.current.previous _ i)
  | inr e ↦ rw e i
]

In-add_reserved_old :
    (p : Pruning) (active : Option ActivePointer) (items : List Entry) (kept : List Str) {j : Str}
    → In j kept
    → In j (add_reserved p active items kept)
unfolding add_reserved
In-add_reserved_old p active [] kept i = i
In-add_reserved_old p active (e ∷ rest) kept {j} i =
    In-add_reserved_old p active rest _ (step (is_reserved_code p (installed_code active e)))
  where
    step : (b : Bool) → In j (if b then add_key (path_of e) kept else kept)
    step true = In-add_key_old (path_of e) kept i
    step false = i

In-add_reserved :
    (p : Pruning) (active : Option ActivePointer) (items : List Entry) (kept : List Str) (e : Entry)
    → In e items
    → is_reserved_code p (installed_code active e) ≡ true
    → In (path_of e) (add_reserved p active items kept)
unfolding add_reserved
In-add_reserved p active [] kept e i r = elim i [ ]
In-add_reserved p active (x ∷ rest) kept e i r = elim (In-cons i) [
  | inl q ↦ In-add_reserved_old p active rest _ (
      subst
        (λ y.
          In (path_of e) (
            if is_reserved_code p (installed_code active y)
            then add_key (path_of y) kept
            else kept))
        q (rw r (In-add_key (path_of e) kept)))
  | inr j ↦ In-add_reserved p active rest _ e j r
]

In-fill :
    (budget : ℤ) (items : List Entry) (kept : List Str) {j : Str}
    → In j kept
    → In j (fill budget items kept)
unfolding fill
In-fill budget [] kept i = i
In-fill budget (e ∷ rest) kept i = elim (Bool-cases (leb_ℤ budget (pos (length kept)))) [
  | inl h ↦ rw h i
  | inr h ↦ rw h (In-fill budget rest _ (In-add_key_old (path_of e) kept i))
]

is_reserved_code-true :
    (p : Pruning) (code : ℤ) → In code p.reserved → code ≢ pos 0 → is_reserved_code p code ≡ true
unfolding is_reserved_code
is_reserved_code-true p code i n =
    rw (In-any (λ c. eqb_ℤ c code) p.reserved i ((eqb_ℤ_iff code code).1 refl))
      (nonzero (Bool-cases (eqb_ℤ code (pos 0))))
  where
    nonzero :
        ((eqb_ℤ code (pos 0)) ≡ true) ⊎ ((eqb_ℤ code (pos 0)) ≡ false)
        → not (eqb_ℤ code (pos 0)) ≡ true
    nonzero (inl e) = absurd (n ((eqb_ℤ_iff code (pos 0)).0 e))
    nonzero (inr e) = rw e refl

module _ (p : Pruning) (trashing : Str → Trashing) (t : Tree) (e : Entry) where
  named_stays : In (path_of e) (named_paths p) → In (path_of e) (kept_paths p t)
  unfolding kept_paths
  named_stays i =
      In-fill (retained p) (newest_first t.active (keep is_item t.entries)) _
        (In-add_reserved_old p t.active (keep is_item t.entries) _ i)

  reason_found :
      In e t.entries
      → is_hidden e ≡ false
      → HasToStay p t e
      → (contains (path_of e) (kept_paths p t) ≡ true) ⊎ (contains e.name p.in_use ≡ true)
  unfolding kept_paths is_item named_paths
  reason_found i h (pointed q) = inl (
      In-contains _ _ (
        named_stays (
          In-named p (path_of e) (
            In-add_path_old p.extra_keep _ (
              subst (λ x. In (path_of e) (add_path x [])) q
                (In-add_path (path_of e) [] (path_is_some e)))))))
  reason_found i h (just_installed q) = inl (
      In-contains _ _ (
        named_stays (
          In-named p (path_of e) (
            subst (λ x. In (path_of e) (add_path x (add_path p.current.path []))) q
              (In-add_path (path_of e) _ (path_is_some e))))))
  reason_found i h (previous_kept q b) = inl (
      In-contains _ _ (
        named_stays (
          rw b (
            subst
              (λ x.
                In (path_of e) (add_path x (add_path p.extra_keep (add_path p.current.path []))))
              q (In-add_path (path_of e) _ (path_is_some e))))))
  reason_found i h (reserved_code d c n) = inl (
      In-contains _ _ (
        In-fill (retained p) (newest_first t.active (keep is_item t.entries)) _ (
          In-add_reserved p t.active (keep is_item t.entries) _ e
            (In-keep is_item t.entries i (rw (h, d) refl)) (is_reserved_code-true p _ c n))))
  reason_found i h (running u) = inr (In-contains e.name p.in_use u)

  -- An entry of `versions/` whose name is not hidden is still there after `pruneVersions` if it
  -- is the one that the given pointer names or the one to keep extra, the previous one where the
  -- budget is two or more, a directory with a reserved code that is not 0, or one that a running
  -- process uses, whatever the other versions and the budget are.
  pub prune_versions-keeps :
      In e t.entries
      → is_hidden e ≡ false
      → HasToStay p t e
      → In e (prune_versions p trashing t).entries
  unfolding prune_versions to_prune
  prune_versions-keeps i h r = In-keep _ t.entries i (spared (reason_found i h r))
    where
      or_dir : (b : Bool) → (b && false) ≡ false
      or_dir true = refl
      or_dir false = refl

      spared :
          (contains (path_of e) (kept_paths p t) ≡ true) ⊎ (contains e.name p.in_use ≡ true)
          → not (to_prune p (kept_paths p t) e && is_movable (trashing e.name)) ≡ true
      spared (inl c) = rw (h, c) (ground arith)
      spared (inr c) = rw (h, c) (ground arith)
