-- ===== src/Selectors/Places.antt =====
-- The place that a client's preferences give to a format, told without the sort key of the code.
use relkit.Prelude.{
  ℕ, suc, ◌+◌, arith, ◌≡◌, ◌≢◌, refl, sym, ap, true, List, [], ◌∷◌, Option, none, some, In, here,
  there, In-cons, inl, inr, Str, ◌==◌, Bool-cases, eq_iff, ne_of_==, Option-cases, subst, ◌∙◌,
  length, pos,
}
use relkit.Prelude.Dicts.{Dict, lookup}
use relkit.Rup.{StrMap, Artifact, selectors_to_map}
use relkit.Selectors.{apply_key, index_of, rank, matches_client_apply}
use relkit.Selectors.Matching.{Meets, matches_client_apply_iff}

-- The first occurrence of a value in a list is at this position.
pub data FirstAt (value : Str) : List Str → ℕ → Type 0 where
  hit : {rest : List Str} → FirstAt value (value ∷ rest) 0
  later :
      {p : Str} {rest : List Str} {n : ℕ}
      → value ≢ p
      → FirstAt value rest n
      → FirstAt value (p ∷ rest) (suc n)

-- A preferred format has the position of its preference; an artifact without a format comes last.
pub data HasPlace (prefs : List Str) : Option Str → ℕ → Type 0 where
  preferred : {value : Str} {n : ℕ} → FirstAt value prefs n → HasPlace prefs (some value) n
  unnamed : HasPlace prefs none (length prefs)

abbrev pub format_of : Artifact → Option Str
format_of a = lookup apply_key (selectors_to_map a.selectors)

lookup-In :
    {V : Type 0} (key : Str) (d : Dict V) {value : V}
    → lookup key d ≡ some value
    → In (key, value) d
unfolding lookup
lookup-In key [] e = cc
lookup-In key ((name, v) ∷ d) {value} e = elim (Bool-cases (name == key)) [
  | inl q ↦
      let same : some v ≡ some value = rw q at e in
      let eq : v ≡ value = cc in let k = (eq_iff name key).0 q in here (cc)
  | inr q ↦ there (lookup-In key d (rw q at e))
]

index_of-FirstAt :
    (i : ℕ) (value : Str) (prefs : List Str)
    → In value prefs
    → (n : ℕ) × FirstAt value prefs n × (index_of i value prefs ≡ pos (i + n))
unfolding index_of
index_of-FirstAt i value [] m = elim m [ ]
index_of-FirstAt i value (p ∷ prefs) m = elim (Bool-cases (value == p)) [
  | inl e ↦ (
    0,
    subst (λ z. FirstAt value (z ∷ prefs) 0) ((eq_iff value p).0 e) hit,
    rw e (ap pos (omega arith)),
  )
  | inr e ↦
      let ne = ne_of_== value p e in
      let (n, f, q) =
        index_of-FirstAt (suc i) value prefs
          (elim (In-cons m) [ inl s ↦ absurd (ne s) | inr j ↦ j ]) in
      (suc n, later ne f, rw e (q ∙ ap pos (omega arith)))
]

pub rank-HasPlace :
    (client : StrMap) (prefs : List Str) (a : Artifact)
    → matches_client_apply (selectors_to_map a.selectors) client prefs ≡ true
    → (n : ℕ) × HasPlace prefs (format_of a) n × (rank prefs a ≡ pos n)
unfolding rank
rank-HasPlace client prefs a m = elim (Option-cases (format_of a)) [
  | inl e ↦ (
    length prefs,
    subst (λ o. HasPlace prefs o (length prefs)) (sym e) unnamed,
    rw (e, rank) refl,
  )
  | inr (v, e) ↦
      let listed = lookup-In apply_key (selectors_to_map a.selectors) e in
      let (n, f, q) =
        index_of-FirstAt 0 v prefs
          (accepted v ((matches_client_apply_iff _ client prefs).0 m apply_key v listed)) in
      (
        n,
        subst (λ o. HasPlace prefs o n) (sym e) (preferred f),
        rw (e, rank) (q ∙ ap pos (omega arith)),
      )
]
  where
    accepted : (v : Str) → Meets client prefs apply_key v → In v prefs
    accepted v (inl p) = p.1
    accepted v (inr p) = absurd (p.0 refl)
