-- ===== src/Publish/Others.antt =====
-- The versions that stay when one is removed, and how a new index lists them.
use relkit.Prelude.{
  eqb_ℤ_iff, eqb_ℤ, ltb_ℤ, negsuc, ◌≤ℤ◌, ◌+ℤ◌, ne_of_==, Bool, true, false, Option, none, some,
  List, [], ◌∷◌, map, ℤ, pos, ◌<ℤ◌, +ℤ_parts, Str, ◌==◌, eq_of_==, ◌≡◌, ◌≢◌, ◌↔◌, inl, inr, refl,
  sym, ◌∙◌, ap, subst, In, here, there, In-cons, Bool-cases, if◌then◌else◌, is_empty, arith,
}
use relkit.Prelude.Results.{Result, ok, err}
use relkit.Prelude.Sorting.{sort_by-In, In-sort_by}
use relkit.Rup.{VersionNode}
use relkit.Publish.{
  sequence_floor, wrap_int, max_int, floored, only_version, PublishError, next_sequence,
  clone_version_nodes, sorted_nodes,
}
use relkit.Publish.Unpublish.{
  checked_kept, first_removed, Split, split_node, split_rest, split_versions, checked_split,
  kept_versions,
}

-- How a sequence that is written follows the one that was read: it is higher, or the one read is the
-- greatest 64-bit integer and the new one is 1000. Only an integer that no document has lies beyond.
pub data Follows (base new : ℤ) : Type 0 where
  higher : base <ℤ new → Follows base new
  wrapped : base ≡ max_int → new ≡ sequence_floor → Follows base new
  no_int : max_int <ℤ base → Follows base new

wrap_int-low : (n : ℤ) → n ≤ℤ max_int → n ≤ℤ wrap_int n
unfolding wrap_int
wrap_int-low (pos n) h = ground arith
wrap_int-low (negsuc n) h = ground arith

max_wrapped : next_sequence max_int ≡ sequence_floor
unfolding next_sequence floored wrap_int ◌+ℤ◌
max_wrapped = refl

floored-above : (base next : ℤ) → base <ℤ next → base <ℤ floored base next
unfolding floored
floored-above base next h = ground arith

pub next_sequence-Follows : (base : ℤ) → Follows base (next_sequence base)
next_sequence-Follows base = elim (Bool-cases (ltb_ℤ base max_int)) [
  | inl h ↦
      let up : base <ℤ base +ℤ pos 1 = ground (arith, +ℤ_parts base (pos 1)) in
      let fits : base +ℤ pos 1 ≤ℤ max_int = ground (arith, +ℤ_parts base (pos 1)) in
      let kept = wrap_int-low (base +ℤ pos 1) fits in
      higher (unfold next_sequence in floored-above base _ (ground arith))
  | inr h ↦ elim (Bool-cases (eqb_ℤ base max_int)) [
    | inl e ↦
        let top = (eqb_ℤ_iff base max_int).0 e in wrapped top (ap next_sequence top ∙ max_wrapped)
    | inr n ↦ no_int (ground arith)
  ]
]

In-clone :
    (versions : List (Option VersionNode)) {v : VersionNode}
    → In (some v) versions
    → In v (clone_version_nodes versions)
unfolding clone_version_nodes
In-clone [] i = elim i [ ]
In-clone (none ∷ rest) i = elim (In-cons i) [
  | inl e ↦ absurd (some_is_none e)
  | inr j ↦ In-clone rest j
]
  where
    some_is_none : {w : VersionNode} → ◌≡◌ {A = Option VersionNode} (some w) none → ⊥
    some_is_none p = cc
In-clone (some w ∷ rest) i = elim (In-cons i) [
  | inl e ↦ here (some_inj e)
  | inr j ↦ there (In-clone rest j)
]
  where
    some_inj : {a b : VersionNode} → ◌≡◌ {A = Option VersionNode} (some a) (some b) → a ≡ b
    some_inj p = cc

clone-In :
    (versions : List (Option VersionNode)) {v : VersionNode}
    → In v (clone_version_nodes versions)
    → In (some v) versions
unfolding clone_version_nodes
clone-In [] i = elim i [ ]
clone-In (none ∷ rest) i = there (clone-In rest i)
clone-In (some w ∷ rest) i = elim (In-cons i) [
  | inl e ↦ here (ap some e)
  | inr j ↦ there (clone-In rest j)
]

In-map : (nodes : List VersionNode) {v : VersionNode} → In v nodes → In (some v) (map some nodes)
In-map [] i = elim i [ ]
In-map (w ∷ nodes) i = elim (In-cons i) [
  | inl e ↦ here (ap some e)
  | inr j ↦ there (In-map nodes j)
]

map-In : (nodes : List VersionNode) {v : VersionNode} → In (some v) (map some nodes) → In v nodes
map-In [] i = elim i [ ]
map-In (w ∷ nodes) i = elim (In-cons i) [
  | inl e ↦ here (some_inj e)
  | inr j ↦ there (map-In nodes j)
]
  where
    some_inj : {a b : VersionNode} → ◌≡◌ {A = Option VersionNode} (some a) (some b) → a ≡ b
    some_inj p = cc

pub sorted_nodes-In :
    (versions : List (Option VersionNode)) (v : VersionNode)
    → In (some v) (sorted_nodes versions) ↔ In (some v) versions
unfolding sorted_nodes
sorted_nodes-In versions v = (
  (λ i. clone-In versions (sort_by-In _ (clone_version_nodes versions) (map-In _ i))),
  (λ i. In-map _ (In-sort_by _ (clone_version_nodes versions) (In-clone versions i))),
)

pub err_is_ok :
    {A : Type 0} {x : PublishError} {y : A} → ◌≡◌ {A = Result PublishError A} (err x) (ok y) → ⊥
err_is_ok p = cc

pub ok_inj : {A : Type 0} {x y : A} → ◌≡◌ {A = Result PublishError A} (ok x) (ok y) → x ≡ y
ok_inj p = cc

-- The entries that stay: those of another version.
abbrev pub IsOther : Str → List (Option VersionNode) → List (Option VersionNode) → Type 0
IsOther version versions kept =
    (v : VersionNode) → In (some v) kept ↔ (In (some v) versions × (v.version ≢ version))

module _ (version : Str) where
  IsOther-none :
      {rest kept : List (Option VersionNode)}
      → IsOther version rest kept
      → IsOther version (none ∷ rest) kept
  IsOther-none {rest = rest} h v =
      ((λ i. let (j, n) = (h v).0 i in (there j, n)), (λ p. (h v).1 (later p.0, p.1)))
    where
      some_is_none : {w : VersionNode} → ◌≡◌ {A = Option VersionNode} (some w) none → ⊥
      some_is_none p = cc

      later : In (some v) (none ∷ rest) → In (some v) rest
      later i = elim (In-cons i) [ inl e ↦ absurd (some_is_none e) | inr j ↦ j ]

  some_inj : {a b : VersionNode} → ◌≡◌ {A = Option VersionNode} (some a) (some b) → a ≡ b
  some_inj p = cc

  IsOther-drop :
      (w : VersionNode) {rest kept : List (Option VersionNode)}
      → w.version ≡ version
      → IsOther version rest kept
      → IsOther version (some w ∷ rest) kept
  IsOther-drop w e h v = (
    (λ i. let (j, n) = (h v).0 i in (there j, n)),
    (λ p. elim (In-cons p.0) [
      | inl q ↦ absurd (p.1 (ap (λ x. x.version) (some_inj q) ∙ e))
      | inr j ↦ (h v).1 (j, p.1)
    ]),
  )

  IsOther-add :
      (w : VersionNode) {rest kept : List (Option VersionNode)}
      → w.version ≢ version
      → IsOther version rest kept
      → IsOther version (some w ∷ rest) (some w ∷ kept)
  IsOther-add w n h v = (
    (λ i. elim (In-cons i) [
      | inl q ↦ (here q, (λ e. n (ap (λ x. x.version) (sym (some_inj q)) ∙ e)))
      | inr j ↦ let (k, m) = (h v).0 j in (there k, m)
    ]),
    (λ p. elim (In-cons p.0) [ inl q ↦ here q | inr j ↦ there ((h v).1 (j, p.1)) ]),
  )

  split_node-IsOther :
      (w : VersionNode) (rest : List (Option VersionNode)) (before s : Split)
      → IsOther version rest before.kept
      → split_node version w before ≡ ok s
      → IsOther version (some w ∷ rest) s.kept
  unfolding split_node first_removed
  split_node-IsOther w rest before s h e = elim (Bool-cases (w.version == version)) [
    | inl q ↦ dropped (eq_of_== w.version version q) before.removed (rw (q, split_node) at e)
    | inr q ↦
        subst (λ t. IsOther version (some w ∷ rest) t.kept) (ok_inj (rw (q, split_node) at e))
          (IsOther-add w (ne_of_== w.version version q) h)
  ]
    where
      dropped :
          w.version ≡ version
          → (o : Option VersionNode) → first_removed w o before.kept ≡ ok s
          → IsOther version (some w ∷ rest) s.kept
      dropped q (some _) d = absurd (err_is_ok d)
      dropped q none d =
          subst (λ t. IsOther version (some w ∷ rest) t.kept) (ok_inj d) (IsOther-drop w q h)

  split_rest-IsOther :
      (entry : Option VersionNode) (rest : List (Option VersionNode))
      (r : Result PublishError Split) (s : Split)
      → ((before : Split) → r ≡ ok before → IsOther version rest before.kept)
      → split_rest version entry r ≡ ok s
      → IsOther version (entry ∷ rest) s.kept
  unfolding split_rest
  split_rest-IsOther entry rest (err x) s h e = absurd (err_is_ok e)
  split_rest-IsOther none rest (ok before) s h e = IsOther-none (h s e)
  split_rest-IsOther (some w) rest (ok before) s h e =
      split_node-IsOther w rest before s (h before refl) e

  split_versions-IsOther :
      (versions : List (Option VersionNode)) (s : Split)
      → split_versions version versions ≡ ok s
      → IsOther version versions s.kept
  unfolding split_versions
  split_versions-IsOther [] s e = λ v.
      ((λ i. elim (subst (λ t. In (some v) t.kept) (sym (ok_inj e)) i) [ ]), (λ p. elim p.0 [ ]))
  split_versions-IsOther (entry ∷ rest) s e =
      split_rest-IsOther entry rest (split_versions version rest) s
        (λ before d. split_versions-IsOther rest before d) e

  checked_split-IsOther :
      (versions kept : List (Option VersionNode)) (r : Result PublishError Split)
      → split_versions version versions ≡ r
      → checked_split r ≡ ok kept
      → IsOther version versions kept
  unfolding checked_split checked_kept
  checked_split-IsOther versions kept (err x) q e = absurd (err_is_ok e)
  checked_split-IsOther versions kept (ok s) q e =
      subst (IsOther version versions) (stays s.removed e) (split_versions-IsOther versions s q)
    where
      chosen :
          (b : Bool)
          → ◌≡◌ {A = Result PublishError (List (Option VersionNode))}
              (if b then err only_version else ok s.kept)
              (ok kept)
          → s.kept ≡ kept
      chosen true d = absurd (err_is_ok d)
      chosen false d = ok_inj d

      stays : (o : Option VersionNode) → checked_kept o s.kept ≡ ok kept → s.kept ≡ kept
      stays none d = absurd (err_is_ok d)
      stays (some _) d = chosen (is_empty s.kept) d

  pub kept_versions-IsOther :
      (versions kept : List (Option VersionNode))
      → kept_versions version versions ≡ ok kept
      → IsOther version versions kept
  unfolding kept_versions
  kept_versions-IsOther [] kept e = absurd (err_is_ok e)
  kept_versions-IsOther (entry ∷ rest) kept e =
      checked_split-IsOther (entry ∷ rest) kept (split_versions version (entry ∷ rest)) refl e
