-- ===== src/Chain/Path.antt =====
-- `ResolveUpgradePath` ends, and follows the greedy choice at each hop.
use mathlib.Core.Option
use relkit.Prelude.{
  ℕ, zero, suc, ◌≤◌, ◌<◌, ◌≡◌, sym, ap, Option, none, some, List, [], ◌∷◌, ℤ, ◌≤ℤ◌, ◌<ℤ◌, arith, In,
  length, here, there, inl, inr, subst, ltb_ℤ, if◌then◌else◌, Option-cases,
}
use relkit.Rup.{VersionNode, Index}
use relkit.Chain.{select_next_target, walk, or_nil, resolve_upgrade_path}
use relkit.Chain.Select.{select-Hop}

-- How many entries lie above a code: what each hop lowers.
above : ℤ → List (Option VersionNode) → ℕ
above c [] = 0
above c (none ∷ rest) = above c rest
above c (some t ∷ rest) = if ltb_ℤ c t.code then suc (above c rest) else above c rest

above-le-length : (c : ℤ) (l : List (Option VersionNode)) → above c l ≤ length l
unfolding above
above-le-length c [] = omega arith
above-le-length c (none ∷ l) = omega (arith, above-le-length c l)
above-le-length c (some t ∷ l) = ground (arith, above-le-length c l)

above_mono : (c d : ℤ) (l : List (Option VersionNode)) → c ≤ℤ d → above d l ≤ above c l
unfolding above
above_mono c d [] h = omega arith
above_mono c d (none ∷ l) h = above_mono c d l h
above_mono c d (some t ∷ l) h = ground (arith, above_mono c d l)

above-head :
    (c : ℤ) (u : VersionNode) (l : List (Option VersionNode))
    → c <ℤ u.code
    → above u.code (some u ∷ l) < above c (some u ∷ l)
unfolding above
above-head c u l h = ground (arith, above_mono c u.code l)

above-hop :
    (c : ℤ) (t : VersionNode) (l : List (Option VersionNode))
    → In (some t) l
    → c <ℤ t.code
    → above t.code l < above c l
unfolding above
above-hop c t [] i h = elim i [ ]
above-hop c t (none ∷ l) (here e) h = cc
above-hop c t (some u ∷ l) (here e) h =
    let same : t ≡ u = cc in
    subst (λ v. above v.code (some u ∷ l) < above c (some u ∷ l)) (sym same)
      (above-head c u l (subst (λ v. c <ℤ v.code) same h))
above-hop c t (none ∷ l) (there i) h = above-hop c t l i h
above-hop c t (some u ∷ l) (there i) h = ground (arith, above-hop c t l i)

walk-total :
    (fuel : ℕ) (index : Index) (c : ℤ)
    → above c index.versions < fuel
    → (path : List VersionNode) × (walk fuel index c ≡ some path)
unfolding walk
walk-total zero index c h = elim h [ ]
walk-total (suc fuel) index c h = elim (Option-cases (select_next_target index c)) [
  | inl e ↦ ([], rw (e, walk))
  | inr (t, e) ↦
      let hop = select-Hop index c e in
      let (path, p) =
        walk-total fuel index t.code
          (omega (arith, above-hop c t index.versions hop.listed hop.may.upward)) in
      (t ∷ path, rw (e, walk) (rw p))
]

-- Once there is enough, the fuel does not matter.
walk-fuel :
    (f g : ℕ) (index : Index) (c : ℤ)
    → above c index.versions < f
    → above c index.versions < g
    → walk f index c ≡ walk g index c
unfolding walk
walk-fuel zero g index c h k = elim h [ ]
walk-fuel (suc f) zero index c h k = elim k [ ]
walk-fuel (suc f) (suc g) index c h k = elim (Option-cases (select_next_target index c)) [
  | inl e ↦ rw (e, walk)
  | inr (t, e) ↦
      let hop = select-Hop index c e in
      let fewer = above-hop c t index.versions hop.listed hop.may.upward in
      rw (e, walk)
        (ap (Option.map (λ path. t ∷ path))
          (walk-fuel f g index t.code (omega arith) (omega arith)))
]

-- The fuel of the model of `ResolveUpgradePath`, one round more than the index has entries, is
-- enough for each index and each code: its loop ends.
pub resolve_total :
    (index : Index) (c : ℤ)
    → walk (suc (length index.versions)) index c ≡ some (resolve_upgrade_path index c)
unfolding resolve_upgrade_path
resolve_total index c =
    let (path, p) =
      walk-total (suc (length index.versions)) index c
        (omega (arith, above-le-length c index.versions)) in
    rw p

-- The loop without its fuel.
pub resolve-none :
    (index : Index) (c : ℤ) → select_next_target index c ≡ none → resolve_upgrade_path index c ≡ []
unfolding resolve_upgrade_path walk
resolve-none index c e = rw (e, walk, or_nil)

pub resolve-some :
    (index : Index) (c : ℤ) {t : VersionNode}
    → select_next_target index c ≡ some t
    → resolve_upgrade_path index c ≡ t ∷ resolve_upgrade_path index t.code
unfolding walk
resolve-some index c {t} e =
    let hop = select-Hop index c e in
    let fewer = above-hop c t index.versions hop.listed hop.may.upward in
    let bound = above-le-length c index.versions in
    let L = length index.versions in
    let here_too = walk-fuel L (suc L) index t.code (omega arith) (omega arith) in
    let whole : walk (suc L) index c ≡ some (t ∷ resolve_upgrade_path index t.code) =
      rw (e, walk) (rw (here_too, resolve_total index t.code)) in
    cc (resolve_total index c)
