-- ===== src/Chain/Head.antt =====
-- `FindHead`, and what "reaches the head" means.
use relkit.Prelude.{
  ℕ, ◌≡◌, sym, true, false, Option, none, some, List, [], ◌∷◌, ℤ, ◌≤ℤ◌, ◌<ℤ◌, arith, In, length,
  here, there, inl, inr, ◌⊎◌, ◌↔◌, subst, Bool-cases, eq_of_parts, eqb_ℤ_iff,
}
use relkit.Rup.{VersionNode, Index}
use relkit.Chain.{resolve_upgrade_path, scan_head, better_head, find_head, reaches_head, ends_at}
use relkit.Chain.Optimal.{
  final, end_of, Hops, hop, stay, final_mono, resolve-Hops, resolve-furthest,
}

-- The head is at or above every version that is not yanked.
abbrev Covers : Option VersionNode → VersionNode → Type 0
Covers none t = ⊥
Covers (some h) t = t.code ≤ℤ h.code

better-Covers :
    (h : Option VersionNode) (t u : VersionNode) → Covers h u → Covers (better_head h t) u
unfolding better_head
better-Covers none t u c = absurd c
better-Covers (some h) t u c = ground arith

better_takes :
    (h : Option VersionNode) (t : VersionNode) → t.yanked ≡ false → Covers (better_head h t) t
unfolding better_head
better_takes none t a = ground arith
better_takes (some h) t a = ground arith

scan-Covers :
    (h : Option VersionNode) (l : List (Option VersionNode)) (u : VersionNode)
    → Covers h u
    → Covers (scan_head h l) u
unfolding scan_head
scan-Covers h [] u c = c
scan-Covers h (none ∷ l) u c = scan-Covers h l u c
scan-Covers h (some t ∷ l) u c = scan-Covers (better_head h t) l u (better-Covers h t u c)

scan_takes :
    (h : Option VersionNode) (l : List (Option VersionNode)) {u : VersionNode}
    → In (some u) l
    → u.yanked ≡ false
    → Covers (scan_head h l) u
unfolding scan_head
scan_takes h [] i a = elim i [ ]
scan_takes h (none ∷ l) (here e) a = cc
scan_takes h (some t ∷ l) {u} (here e) a = scan-Covers (better_head h t) l u (
    let same : u ≡ t = cc in
    subst (λ v. Covers (better_head h t) v) (sym same)
      (better_takes h t (subst (λ v. v.yanked ≡ false) same a)))
scan_takes h (none ∷ l) (there i) a = scan_takes h l i a
scan_takes h (some t ∷ l) (there i) a = scan_takes (better_head h t) l i a

better-from :
    (h : Option VersionNode) (t : VersionNode)
    → (better_head h t ≡ h) ⊎ ((better_head h t ≡ some t) × (t.yanked ≡ false))
unfolding better_head
better-from none t = ground arith
better-from (some h) t = ground arith

scan-from :
    (h : Option VersionNode) (l : List (Option VersionNode)) {u : VersionNode}
    → scan_head h l ≡ some u
    → (h ≡ some u) ⊎ (In (some u) l × (u.yanked ≡ false))
unfolding scan_head
scan-from h [] e = inl e
scan-from h (none ∷ l) e = elim (scan-from h l e) [ inl p ↦ inl p | inr (i, a) ↦ inr (there i, a) ]
scan-from h (some t ∷ l) e = elim (scan-from (better_head h t) l e) [
  | inl p ↦ elim (better-from h t) [ inl q ↦ inl (cc) | inr (q, a) ↦ inr (here (cc), ground arith) ]
  | inr (i, a) ↦ inr (there i, a)
]

-- The head is a listed version that is not yanked, and no other of those is above it.
pub record IsHead (index : Index) (h : VersionNode) : Type 0 where
  pub listed : In (some h) index.versions
  pub available : h.yanked ≡ false
  pub highest : (u : VersionNode) → In (some u) index.versions → u.yanked ≡ false → u.code ≤ℤ h.code

-- What `FindHead` returns is a listed version that is not yanked, and no listed version that is
-- not yanked has a higher code.
pub find_head-IsHead : (index : Index) {h : VersionNode} → find_head index ≡ some h → IsHead index h
unfolding find_head
find_head-IsHead index {h} e = elim (scan-from none index.versions e) [
  | inl p ↦ cc
  | inr (i, a) ↦ record {
    listed = i;
    available = a;
    highest = λ u iu au. subst (λ o. Covers o u) e (scan_takes none index.versions iu au);
  }
]

-- Without a head every version is yanked.
pub find_head-none :
    (index : Index) (u : VersionNode)
    → find_head index ≡ none
    → In (some u) index.versions
    → u.yanked ≡ true
unfolding find_head
find_head-none index u e i = elim (Bool-cases u.yanked) [
  | inl y ↦ y
  | inr n ↦ absurd (subst (λ o. Covers o u) e (scan_takes none index.versions i n))
]

Hops-le-head :
    {index : Index} {n : ℕ} {c d : ℤ} {h : VersionNode}
    → IsHead index h
    → Hops index n c d
    → c ≤ℤ h.code
    → d ≤ℤ h.code
Hops-le-head ih (stay c) le = le
Hops-le-head ih (hop t m r) le = Hops-le-head ih r (ih.highest t m.listed m.may.available)

pub final-le-head :
    (index : Index) (c : ℤ) {h : VersionNode}
    → IsHead index h
    → c ≤ℤ h.code
    → final index c ≤ℤ h.code
final-le-head index c ih le = Hops-le-head ih (resolve-Hops index c) le

ends_iff :
    (code : ℤ) (t : VersionNode) (path : List VersionNode)
    → (ends_at code (t ∷ path) ≡ true) ↔ (end_of t.code path ≡ code)
ends_iff code t [] = eqb_ℤ_iff t.code code
ends_iff code t (u ∷ path) = ends_iff code u path

path_iff :
    (code c : ℤ) (path : List VersionNode)
    → c <ℤ code
    → (ends_at code path ≡ true) ↔ (end_of c path ≡ code)
path_iff code c [] lt =
    (λ e. cc, λ e. absurd (subst (λ z. z <ℤ code → ⊥) (sym e) (λ n. omega arith) lt))
path_iff code c (t ∷ path) lt = ends_iff code t path

-- Below the head, `reachesHead` holds exactly where the upgrade path ends at the head's code.
pub reaches_iff :
    (index : Index) (h : VersionNode) (c : ℤ)
    → c <ℤ h.code
    → (reaches_head index h c ≡ true) ↔ (final index c ≡ h.code)
unfolding reaches_head
reaches_iff index h c lt = path_iff h.code c (resolve_upgrade_path index c) lt

-- If h is the head and a client at c reaches it, then so does each client between c and h.
pub reaches_mono :
    (index : Index) (h : VersionNode) (c c' : ℤ)
    → IsHead index h
    → c ≤ℤ c'
    → c' <ℤ h.code
    → reaches_head index h c ≡ true
    → reaches_head index h c' ≡ true
reaches_mono index h c c' ih le lt r =
    let at_head = (reaches_iff index h c (omega arith)).0 r in
    let up = subst (λ z. z ≤ℤ final index c') at_head (final_mono index c c' le) in
    let down = final-le-head index c' ih (omega arith) in
    (reaches_iff index h c' lt).1 (eq_of_parts (final index c') h.code (omega arith))

-- For a client below the head h, `reachesHead` holds exactly where some sequence of legal hops
-- leads from the client's code to the code of h.
pub reaches-Hops :
    (index : Index) (h : VersionNode) (c : ℤ)
    → IsHead index h
    → c <ℤ h.code
    → (reaches_head index h c ≡ true) ↔ ((n : ℕ) × Hops index n c h.code)
reaches-Hops index h c ih lt = (
  λ r. (
    length (resolve_upgrade_path index c),
    subst (λ z. Hops index (length (resolve_upgrade_path index c)) c z)
        ((reaches_iff index h c lt).0 r) (resolve-Hops index c),
  ),
  λ w.
      let up = resolve-furthest index w.0 c h.code w.1 in
      let down = final-le-head index c ih (omega arith) in
      (reaches_iff index h c lt).1 (eq_of_parts (final index c) h.code (omega arith)),
)
