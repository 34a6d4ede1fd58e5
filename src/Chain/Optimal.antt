-- ===== src/Chain/Optimal.antt =====
-- The path of `ResolveUpgradePath` against every way to upgrade hop by hop.
use relkit.Prelude.{
  ℕ, suc, ◌≤◌, ◌≡◌, refl, sym, none, some, List, [], ◌∷◌, ℤ, ◌≤ℤ◌, ◌<ℤ◌, arith, length, inl, inr,
  subst, Option-cases, Bool-cases, ltb_ℤ, ltb_ℤ→lt, ltb_ℤ→le,
}
use relkit.Rup.{VersionNode, Index}
use relkit.Chain.{select_next_target, resolve_upgrade_path}
use relkit.Chain.Select.{Hop, select-Hop, select-highest, select-none}
use relkit.Chain.Path.{resolve-none, resolve-some}

-- `n` legal hops lead a client from one code to another.
pub data Hops (index : Index) : ℕ → ℤ → ℤ → Type 0 where
  stay : (c : ℤ) → Hops index 0 c c
  hop :
      {n : ℕ} {c d : ℤ} (t : VersionNode)
      → Hop index c t
      → Hops index n t.code d
      → Hops index (suc n) c d

abbrev pub end_of : ℤ → List VersionNode → ℤ
end_of c [] = c
end_of c (t ∷ path) = end_of t.code path

-- Where the path ends.
abbrev pub final : Index → ℤ → ℤ
final index c = end_of c (resolve_upgrade_path index c)

-- The code after one greedy hop.
next : Index → ℤ → ℤ
next index c = elim (select_next_target index c) [ none ↦ c | some t ↦ t.code ]

final-next : (index : Index) (c : ℤ) → final index (next index c) ≡ final index c
unfolding next
final-next index c = elim (Option-cases (select_next_target index c)) [
  | inl e ↦ rw (e, next)
  | inr (t, e) ↦ rw (e, next) (rw (resolve-some index c e))
]

length-next :
    (index : Index) (c : ℤ)
    → length (resolve_upgrade_path index c)
      ≤ suc (length (resolve_upgrade_path index (next index c)))
unfolding next
length-next index c = elim (Option-cases (select_next_target index c)) [
  | inl e ↦ rw (resolve-none index c e) (omega arith)
  | inr (t, e) ↦ rw (e, next) (rw (resolve-some index c e) (omega arith))
]

-- A legal hop stays legal for a client that is further on, until it is past the target.
later-Hop :
    (index : Index) (c c' : ℤ) {t : VersionNode}
    → c ≤ℤ c'
    → c' <ℤ t.code
    → Hop index c t
    → Hop index c' t
later-Hop index c c' le lt h = record {
  listed = h.listed;
  may = record {
    available = h.may.available;
    upward = lt;
    reachable = let r = h.may.reachable in omega arith;
  };
}

-- So its next hop goes at least as far.
next-above :
    (index : Index) (c c' : ℤ) {t : VersionNode} → c ≤ℤ c' → Hop index c t → t.code ≤ℤ next index c'
unfolding next
next-above index c c' {t} le h = elim (Option-cases (select_next_target index c')) [
  | inl e ↦
      rw (e, next)
        (elim (Bool-cases (ltb_ℤ c' t.code)) [
          | inl lt ↦
              absurd (select-none index c' e (later-Hop index c c' le (ltb_ℤ→lt c' t.code lt) h))
          | inr ge ↦ ltb_ℤ→le c' t.code ge
        ])
  | inr (u, e) ↦
      rw (e, next)
        (elim (Bool-cases (ltb_ℤ c' t.code)) [
          | inl lt ↦ select-highest index c' e (later-Hop index c c' le (ltb_ℤ→lt c' t.code lt) h)
          | inr ge ↦
              let up = (select-Hop index c' e).may.upward in
              let past = ltb_ℤ→le c' t.code ge in omega arith
        ])
]

path-Hops :
    (index : Index) (path : List VersionNode) (c : ℤ)
    → resolve_upgrade_path index c ≡ path
    → Hops index (length path) c (end_of c path)
path-Hops index [] c e = stay c
path-Hops index (t ∷ path) c e = elim (Option-cases (select_next_target index c)) [
  | inl none_left ↦ let stuck = resolve-none index c none_left in cc
  | inr (u, s) ↦
      let step = resolve-some index c s in
      let same : u ≡ t = cc in
      hop t (subst (Hop index c) same (select-Hop index c s)) (
        path-Hops index path t.code
          (subst (λ v. resolve_upgrade_path index v.code ≡ path) same (cc)))
]

-- The path of `ResolveUpgradePath` is a way to upgrade: as many legal hops as it has nodes lead
-- from the client's code to the code of its last node, or stay where the path is empty.
pub resolve-Hops :
    (index : Index) (c : ℤ) → Hops index (length (resolve_upgrade_path index c)) c (final index c)
resolve-Hops index c = path-Hops index (resolve_upgrade_path index c) c refl

Hops-le : {index : Index} {n : ℕ} {c d : ℤ} → Hops index n c d → c ≤ℤ d
Hops-le (stay c) = omega arith
Hops-le (hop t h r) = let up = h.may.upward in let le = Hops-le r in omega arith

pub below-final : (index : Index) (c : ℤ) → c ≤ℤ final index c
below-final index c = Hops-le (resolve-Hops index c)

Hops-final :
    {index : Index} {n : ℕ} {c d : ℤ} (c' : ℤ) → Hops index n c d → c ≤ℤ c' → d ≤ℤ final index c'
Hops-final {index} c' (stay c) le = let more = below-final index c' in omega arith
Hops-final {index} {c = c} {d = d} c' (hop t h r) le =
    subst (λ z. d ≤ℤ z) (final-next index c')
      (Hops-final (next index c') r (next-above index c c' le h))

pub still-at-end : (index : Index) (c : ℤ) → final index c ≤ℤ c → resolve_upgrade_path index c ≡ []
still-at-end index c at_end = elim (Option-cases (select_next_target index c)) [
  | inl e ↦ resolve-none index c e
  | inr (t, e) ↦
      let up = (select-Hop index c e).may.upward in
      let on : final index t.code ≡ final index c = rw (resolve-some index c e) in
      let more = subst (λ z. t.code ≤ℤ z) on (below-final index t.code) in absurd (omega arith)
]

Hops-length :
    {index : Index} {n : ℕ} {c d : ℤ} (c' : ℤ)
    → Hops index n c d
    → c ≤ℤ c'
    → final index c' ≤ℤ d
    → length (resolve_upgrade_path index c') ≤ n
Hops-length {index} c' (stay c) le at_end = rw (still-at-end index c' (omega arith)) (omega arith)
Hops-length {index} {c = c} {d = d} c' (hop t h r) le at_end =
    let fewer =
      Hops-length (next index c') r (next-above index c c' le h)
        (subst (λ z. z ≤ℤ d) (sym (final-next index c')) at_end) in
    omega (arith, length-next index c')

-- Whatever code a client can get to by legal hops, however these are chosen, the path of
-- `ResolveUpgradePath` ends at that code or above it.
pub resolve-furthest : (index : Index) (n : ℕ) (c d : ℤ) → Hops index n c d → d ≤ℤ final index c
resolve-furthest index n c d h = Hops-final c h (omega arith)

-- Any sequence of legal hops that leads a client to the end of the path of `ResolveUpgradePath`
-- has at least as many hops as that path.
pub resolve-shortest :
    (index : Index) (n : ℕ) (c : ℤ)
    → Hops index n c (final index c)
    → length (resolve_upgrade_path index c) ≤ n
resolve-shortest index n c h = Hops-length c h (omega arith) (omega arith)

-- Of two clients of an index, the one that is further on has an upgrade path that ends at least
-- as far.
pub final_mono : (index : Index) (c c' : ℤ) → c ≤ℤ c' → final index c ≤ℤ final index c'
final_mono index c c' le = Hops-final c' (resolve-Hops index c) le
