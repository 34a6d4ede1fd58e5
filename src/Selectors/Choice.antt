-- ===== src/Selectors/Choice.antt =====
-- The artifact that `SelectArtifactPreferring` returns.
use relkit.Prelude.{
  ◌<◌, ℕ, ◌⊎◌, eqb_ℤ, eqb_ℤ_iff, ◌<ℤ◌, ltb_ℤ→le, arith, ◌≡◌, sym, true, false, List, [], ◌∷◌,
  Option, none, some, arith, In, here, there, In-cons, inl, inr, ◌↔◌, Str, Bool-cases, Option-cases,
  subst, ap, false≢true, ◌∙◌, ltb_str, ltb_str_irrefl, ltb_str_asym, ltb_str_trans, ltb_str_total,
}
use relkit.Prelude.Sorting.{sort_by, sort_by-In, In-sort_by, sort_by-IsSorted, IsStrict, IsSorted}
use relkit.Rup.{StrMap, Artifact, Manifest, selectors_to_map}
use relkit.Selectors.Places.{HasPlace, format_of, rank-HasPlace}
use relkit.Selectors.{
  rank, before, matching, first, matches_client_apply, select_artifact_preferring,
}

not_less_trans : (s t u : Str) → ltb_str t s ≡ false → ltb_str u t ≡ false → ltb_str u s ≡ false
not_less_trans s t u h k = elim (Bool-cases (ltb_str u s)) [
  | inl us ↦ elim (Bool-cases (ltb_str s t)) [
    | inl st ↦ absurd (false≢true (sym k ∙ ltb_str_trans u s t us st))
    | inr ts ↦
        absurd (false≢true (sym k ∙ subst (λ z. ltb_str u z ≡ true) (ltb_str_total s t ts h) us))
  ]
  | inr e ↦ e
]

before-IsStrict : (prefs : List Str) → IsStrict (before prefs)
unfolding before
before-IsStrict prefs = record {
  asym = λ a b h. ground (arith, ltb_str_asym a.id b.id);
  not_trans = λ a b c h k. ground (arith, not_less_trans a.id b.id c.id);
}

-- A match: an artifact of the manifest whose selectors the client meets.
pub record IsMatch (m : Manifest) (client : StrMap) (prefs : List Str) (a : Artifact) : Type 0 where
  pub listed : In (some a) m.artifacts
  pub accepted : matches_client_apply (selectors_to_map a.selectors) client prefs ≡ true

matching-In :
    (client : StrMap) (prefs : List Str) (l : List (Option Artifact)) {a : Artifact}
    → In a (matching client prefs l)
    → In (some a) l × (matches_client_apply (selectors_to_map a.selectors) client prefs ≡ true)
unfolding matching
matching-In client prefs [] i = elim i [ ]
matching-In client prefs (none ∷ l) i = let j = matching-In client prefs l i in (there j.0, j.1)
matching-In client prefs (some b ∷ l) i =
    elim (Bool-cases (matches_client_apply (selectors_to_map b.selectors) client prefs)) [
      | inl e ↦ elim (In-cons (rw e at i)) [
        | inl p ↦ (here (ap some p), rw p e)
        | inr j ↦ let k = matching-In client prefs l j in (there k.0, k.1)
      ]
      | inr e ↦ let k = matching-In client prefs l (rw e at i) in (there k.0, k.1)
    ]

In-matching :
    (client : StrMap) (prefs : List Str) (l : List (Option Artifact)) {a : Artifact}
    → In (some a) l
    → matches_client_apply (selectors_to_map a.selectors) client prefs ≡ true
    → In a (matching client prefs l)
unfolding matching
In-matching client prefs [] i h = elim i [ ]
In-matching client prefs (none ∷ l) (here e) h = cc
In-matching client prefs (none ∷ l) (there i) h = In-matching client prefs l i h
In-matching client prefs (some b ∷ l) {a} (here e) h =
    let same : a ≡ b = cc in
    let hb : matches_client_apply (selectors_to_map b.selectors) client prefs ≡ true =
      subst
        (λ (z : Artifact). matches_client_apply (selectors_to_map z.selectors) client prefs ≡ true)
        same h in
    rw hb (here same)
In-matching client prefs (some b ∷ l) (there i) h =
    elim (Bool-cases (matches_client_apply (selectors_to_map b.selectors) client prefs)) [
      | inl e ↦ rw e (there (In-matching client prefs l i h))
      | inr e ↦ rw e (In-matching client prefs l i h)
    ]

-- The preference of `a` is earlier than that of `b`, or the same with an id that is not greater.
abbrev pub NotAfter : List Str → Artifact → Artifact → Type 0
NotAfter prefs a b =
    (i : ℕ) × (j : ℕ) × HasPlace prefs (format_of a) i
    × HasPlace prefs (format_of b) j
    × ((i < j) ⊎ ((i ≡ j) × (ltb_str b.id a.id ≡ false)))

-- The same by the sort key of the code.
abbrev RanksNotAfter : List Str → Artifact → Artifact → Type 0
RanksNotAfter prefs a b =
    (rank prefs a <ℤ rank prefs b) ⊎ ((rank prefs a ≡ rank prefs b) × (ltb_str b.id a.id ≡ false))

not_before-RanksNotAfter :
    (prefs : List Str) (a b : Artifact) → before prefs b a ≡ false → RanksNotAfter prefs a b
unfolding before
not_before-RanksNotAfter prefs a b h = elim (Bool-cases (eqb_ℤ (rank prefs b) (rank prefs a))) [
  | inl e ↦ inr (sym ((eqb_ℤ_iff (rank prefs b) (rank prefs a)).0 e), rw e at h)
  | inr n ↦ inl (
      let f = ltb_ℤ→le (rank prefs b) (rank prefs a) (rw n at h) in
      ground (arith, eqb_ℤ_iff (rank prefs b) (rank prefs a)))
]

-- The choice: a match that comes after no other match.
pub record IsChoice (m : Manifest) (client : StrMap) (prefs : List Str) (a : Artifact)
    : Type 0 where
  pub match : IsMatch m client prefs a
  pub best : (b : Artifact) → IsMatch m client prefs b → NotAfter prefs a b

record IsLeast (m : Manifest) (client : StrMap) (prefs : List Str) (a : Artifact) : Type 0 where
  match : IsMatch m client prefs a
  best : (b : Artifact) → IsMatch m client prefs b → RanksNotAfter prefs a b

ranks-NotAfter :
    (m : Manifest) (client : StrMap) (prefs : List Str) (a b : Artifact)
    → IsMatch m client prefs a
    → IsMatch m client prefs b
    → RanksNotAfter prefs a b
    → NotAfter prefs a b
ranks-NotAfter m client prefs a b v w h =
    let (i, p, e) = rank-HasPlace client prefs a v.accepted in
    let (j, q, f) = rank-HasPlace client prefs b w.accepted in
    (
      i,
      j,
      p,
      q,
      elim h [
        | inl lt ↦ inl (ground (arith, e, f))
        | inr same ↦ inr (ground (arith, e, f), same.1)
      ],
    )

first-In : (l : List Artifact) {a : Artifact} → first l ≡ some a → In a l
unfolding first
first-In [] e = cc
first-In (b ∷ l) e = here (cc)

first-none : (l : List Artifact) {a : Artifact} → first l ≡ none → In a l → ⊥
unfolding first
first-none [] e i = elim i [ ]
first-none (b ∷ l) e i = cc

first-low :
    (prefs : List Str) (l : List Artifact) {a b : Artifact}
    → IsSorted (before prefs) l
    → first l ≡ some a
    → In b l
    → before prefs b a ≡ false
unfolding first
first-low prefs [] s e i = elim i [ ]
first-low prefs (x ∷ l) {a} {b} s e i =
    let same : x ≡ a = cc in
    subst (λ z. before prefs b z ≡ false) same
      (elim (In-cons i) [
        | inl p ↦ rw p (unfold before in ground (arith, ltb_str_irrefl x.id))
        | inr j ↦ s.0 b j
      ])

select-IsLeast :
    (m : Manifest) (client : StrMap) (prefs : List Str) {a : Artifact}
    → select_artifact_preferring m client prefs ≡ some a
    → IsLeast m client prefs a
unfolding select_artifact_preferring
select-IsLeast m client prefs {a} e =
    let l = matching client prefs m.artifacts in
    let here_in =
      matching-In client prefs m.artifacts (sort_by-In (before prefs) l (first-In _ e)) in
    record {
      match = record { listed = here_in.0; accepted = here_in.1 };
      best = λ b w. not_before-RanksNotAfter prefs a b (
          first-low prefs (sort_by (before prefs) l)
            (sort_by-IsSorted (before prefs) (before-IsStrict prefs) l) e
            (In-sort_by (before prefs) l
              (In-matching client prefs m.artifacts w.listed w.accepted)));
    }

-- What `SelectArtifactPreferring` returns is an artifact of the manifest whose selectors match
-- the client, and against every other match the first preference that is its format comes earlier
-- in the list, or is the same and its id is not greater; an artifact that names no format comes
-- after all preferences.
pub select-IsChoice :
    (m : Manifest) (client : StrMap) (prefs : List Str) {a : Artifact}
    → select_artifact_preferring m client prefs ≡ some a
    → IsChoice m client prefs a
select-IsChoice m client prefs {a} e =
    let least = select-IsLeast m client prefs e in
    record {
      match = least.match;
      best = λ b w. ranks-NotAfter m client prefs a b least.match w (least.best b w);
    }

-- If `SelectArtifactPreferring` returns nothing, no artifact of the manifest matches the client.
pub select_artifact-none :
    (m : Manifest) (client : StrMap) (prefs : List Str) (a : Artifact)
    → select_artifact_preferring m client prefs ≡ none
    → ¬ IsMatch m client prefs a
unfolding select_artifact_preferring
select_artifact-none m client prefs a e w = first-none _ e (
    In-sort_by (before prefs) (matching client prefs m.artifacts)
      (In-matching client prefs m.artifacts w.listed w.accepted))

-- Two artifacts of which neither comes before the other have the same id.
same_id :
    (prefs : List Str) (a b : Artifact)
    → RanksNotAfter prefs b a
    → RanksNotAfter prefs a b
    → a.id ≡ b.id
same_id prefs a b (inl h) (inl k) = absurd (omega arith)
same_id prefs a b (inl h) (inr k) = absurd (let (e, _) = k in ground arith)
same_id prefs a b (inr h) (inl k) = absurd (let (e, _) = h in ground arith)
same_id prefs a b (inr h) (inr k) = ltb_str_total a.id b.id h.1 k.1

-- If two manifests have the same artifacts, in any order, and different artifacts have different
-- ids, `SelectArtifactPreferring` returns the same for both.
pub select_order :
    (m n : Manifest) (client : StrMap) (prefs : List Str)
    → ((a : Artifact) → In (some a) m.artifacts ↔ In (some a) n.artifacts)
    → ((a b : Artifact) → In (some a) m.artifacts → In (some b) m.artifacts → a.id ≡ b.id → a ≡ b)
    → select_artifact_preferring m client prefs ≡ select_artifact_preferring n client prefs
select_order m n client prefs same distinct =
    elim (Option-cases (select_artifact_preferring m client prefs)) [
      | inl e ↦ elim (Option-cases (select_artifact_preferring n client prefs)) [
        | inl f ↦ e ∙ sym f
        | inr (b, f) ↦
            let w = (select-IsLeast n client prefs f).match in
            absurd (
              select_artifact-none m client prefs b e
                (record { listed = (same b).1 w.listed; accepted = w.accepted }))
      ]
      | inr (a, e) ↦ elim (Option-cases (select_artifact_preferring n client prefs)) [
        | inl f ↦
            let w = (select-IsLeast m client prefs e).match in
            absurd (
              select_artifact-none n client prefs a f
                (record { listed = (same a).0 w.listed; accepted = w.accepted }))
        | inr (b, f) ↦
            let ca = select-IsLeast m client prefs e in
            let cb = select-IsLeast n client prefs f in
            let b_in_m = (same b).1 cb.match.listed in
            let ids =
              same_id prefs a b
                (cb.best a
                  (record { listed = (same a).0 ca.match.listed; accepted = ca.match.accepted }))
                (ca.best b (record { listed = b_in_m; accepted = cb.match.accepted })) in
            e ∙ ap some (distinct a b ca.match.listed b_in_m ids) ∙ sym f
      ]
    ]
