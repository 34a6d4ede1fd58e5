-- ===== src/Chain/Select.antt =====
-- The node that `SelectNextTarget` returns is the highest one that a hop may reach.
use relkit.Prelude.{
  ◌≡◌, false, Option, none, some, List, [], ◌∷◌, ℤ, ◌≤ℤ◌, ◌<ℤ◌, arith, In, here, there, inl, inr,
  ◌⊎◌, subst,
}
use relkit.Rup.{VersionNode, Index}
use relkit.Chain.{scan_targets, select_next_target, better_target}

-- A client at code `c` may install `t`.
pub record MayHop (c : ℤ) (t : VersionNode) : Type 0 where
  pub available : t.yanked ≡ false
  pub upward : c <ℤ t.code
  pub reachable : t.min_from ≤ℤ c

-- `t` is an entry of the index that a client at `c` may install.
pub record Hop (index : Index) (c : ℤ) (t : VersionNode) : Type 0 where
  pub listed : In (some t) index.versions
  pub may : MayHop c t

-- The empty choice is below all others.
abbrev AtMost : Option VersionNode → Option VersionNode → Type 0
AtMost none best = Unit {0}
AtMost (some b) none = ⊥
AtMost (some b) (some t) = b.code ≤ℤ t.code

AtMost-trans : (a b c : Option VersionNode) → AtMost a b → AtMost b c → AtMost a c
AtMost-trans none b c h k = tt
AtMost-trans (some a) none c h k = absurd h
AtMost-trans (some a) (some b) none h k = absurd k
AtMost-trans (some a) (some b) (some c) h k = omega arith

better-AtMost :
    (c : ℤ) (best : Option VersionNode) (t : VersionNode) → AtMost best (better_target c best t)
unfolding better_target
better-AtMost c none t = tt
better-AtMost c (some b) t = ground arith

better-takes :
    (c : ℤ) (best : Option VersionNode) (t : VersionNode)
    → MayHop c t
    → AtMost (some t) (better_target c best t)
unfolding better_target
better-takes c none t h = ground arith
better-takes c (some b) t h = ground arith

better-choice :
    (c : ℤ) (best : Option VersionNode) (t : VersionNode)
    → (better_target c best t ≡ best) ⊎ ((better_target c best t ≡ some t) × MayHop c t)
unfolding better_target
better-choice c none t = ground arith
better-choice c (some b) t = ground arith

scan-AtMost :
    (c : ℤ) (best : Option VersionNode) (rest : List (Option VersionNode))
    → AtMost best (scan_targets c best rest)
unfolding scan_targets
scan-AtMost c none rest = tt
scan-AtMost c (some b) [] = omega arith
scan-AtMost c (some b) (none ∷ rest) = scan-AtMost c (some b) rest
scan-AtMost c (some b) (some t ∷ rest) =
    AtMost-trans (some b) (better_target c (some b) t) _ (better-AtMost c (some b) t)
      (scan-AtMost c (better_target c (some b) t) rest)

scan-takes :
    (c : ℤ) (best : Option VersionNode) (rest : List (Option VersionNode)) {t : VersionNode}
    → In (some t) rest
    → MayHop c t
    → AtMost (some t) (scan_targets c best rest)
unfolding scan_targets
scan-takes c best [] i h = elim i [ ]
scan-takes c best (none ∷ rest) (here e) h = cc
scan-takes c best (some u ∷ rest) {t} (here e) h =
    AtMost-trans (some t) (better_target c best u) _ (rw e (better-takes c best u (ground arith)))
      (scan-AtMost c (better_target c best u) rest)
scan-takes c best (none ∷ rest) (there i) h = scan-takes c best rest i h
scan-takes c best (some u ∷ rest) (there i) h = scan-takes c (better_target c best u) rest i h

scan-choice :
    (c : ℤ) (best : Option VersionNode) (rest : List (Option VersionNode)) {t : VersionNode}
    → scan_targets c best rest ≡ some t
    → (best ≡ some t) ⊎ (In (some t) rest × MayHop c t)
unfolding scan_targets
scan-choice c best [] e = inl e
scan-choice c best (none ∷ rest) e = elim (scan-choice c best rest e) [
  | inl p ↦ inl p
  | inr (i, m) ↦ inr (there i, m)
]
scan-choice c best (some u ∷ rest) e = elim (scan-choice c (better_target c best u) rest e) [
  | inl p ↦ elim (better-choice c best u) [
    | inl q ↦ inl (cc)
    | inr (q, m) ↦ inr (here (cc), ground arith)
  ]
  | inr (i, m) ↦ inr (there i, m)
]

-- What is selected is a legal hop.
pub select-Hop :
    (index : Index) (c : ℤ) {t : VersionNode} → select_next_target index c ≡ some t → Hop index c t
unfolding select_next_target
select-Hop index c e = elim (scan-choice c none index.versions e) [
  | inl p ↦ cc
  | inr (i, m) ↦ record { listed = i; may = m }
]

-- No legal hop goes higher.
pub select-highest :
    (index : Index) (c : ℤ) {t u : VersionNode}
    → select_next_target index c ≡ some t
    → Hop index c u
    → u.code ≤ℤ t.code
unfolding select_next_target
select-highest index c {t} {u} e h =
    subst (AtMost (some u)) e (scan-takes c none index.versions h.listed h.may)

-- Nothing is selected only where there is no legal hop.
pub select-none :
    (index : Index) (c : ℤ) {u : VersionNode} → select_next_target index c ≡ none → ¬ Hop index c u
unfolding select_next_target
select-none index c {u} e h =
    subst (AtMost (some u)) e (scan-takes c none index.versions h.listed h.may)
