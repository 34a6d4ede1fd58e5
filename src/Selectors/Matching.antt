-- ===== src/Selectors/Matching.antt =====
-- What `MatchesClient` and `MatchesClientApply` decide.
use relkit.Prelude.{
  ◌≡◌, refl, sym, ◌≢◌, true, List, [], ◌∷◌, In, here, there, In-cons, inl, inr, ◌⊎◌, ◌↔◌, Str, ◌==◌,
  eq_iff, ==-refl, Bool-cases, any-In, In-any, subst, ne_of_==, false≢true, ◌∙◌,
}
use relkit.Prelude.Dicts.{value_at}
use relkit.Rup.{StrMap}
use relkit.Selectors.{apply_key, matches_one, matches_client_apply}

-- A required selector that a client meets: `apply` by one of the accepted formats, any other key by
-- the client's own value, where a missing one counts as empty.
abbrev pub Meets : StrMap → List Str → Str → Str → Type 0
Meets client prefs key value =
    ((key ≡ apply_key) × In value prefs) ⊎ ((key ≢ apply_key) × (value_at key client ≡ value))

matches_one_iff :
    (client : StrMap) (prefs : List Str) (key value : Str)
    → (matches_one key value client prefs ≡ true) ↔ Meets client prefs key value
unfolding matches_one
matches_one_iff client prefs key value = elim (Bool-cases (key == apply_key)) [
  | inl e ↦ (
    λ h.
        inl ((eq_iff key apply_key).0 e, member (any-In (λ pref. value == pref) prefs (rw e at h))),
    λ m. rw e (elim m [
      | inl p ↦ In-any (λ pref. value == pref) prefs p.1 (==-refl value)
      | inr p ↦ absurd (p.0 ((eq_iff key apply_key).0 e))
    ]),
  )
  | inr e ↦ (
    λ h. inr ((ne_of_== key apply_key e), (eq_iff (value_at key client) value).0 (rw e at h)),
    λ m. rw e (elim m [
      | inl p ↦ absurd (ne_of_== key apply_key e p.0)
      | inr p ↦ (eq_iff (value_at key client) value).1 p.1
    ]),
  )
]
  where
    member : ((p : Str) × In p prefs × ((value == p) ≡ true)) → In value prefs
    member (p, i, h) = subst (λ z. In z prefs) (sym ((eq_iff value p).0 h)) i

-- `MatchesClientApply` holds exactly where each required `apply` selector is one of the accepted
-- formats, and each other one is the client's own value of that key, a missing one being empty.
pub matches_client_apply_iff :
    (required client : StrMap) (prefs : List Str)
    → (matches_client_apply required client prefs ≡ true)
      ↔ ((key value : Str) → In (key, value) required → Meets client prefs key value)
unfolding matches_client_apply
matches_client_apply_iff [] client prefs = (λ _ key value i. elim i [ ], λ _. refl)
matches_client_apply_iff ((k, v) ∷ required) client prefs =
    elim (Bool-cases (matches_one k v client prefs)) [
      | inl e ↦
          let rest = matches_client_apply_iff required client prefs in
          let one = matches_one_iff client prefs k v in
          (
            λ h key value i. elim (In-cons i) [
              | inl p ↦ subst (λ (w : Str × Str). Meets client prefs w.0 w.1) (sym p) (one.0 e)
              | inr j ↦ rest.0 (rw e at h) key value j
            ],
            λ all. rw e (rest.1 (λ key value i. all key value (there i))),
          )
      | inr e ↦ (
        λ h. absurd (false≢true (rw e at h)),
        λ all.
            absurd
              (false≢true (sym e ∙ (matches_one_iff client prefs k v).1 (all k v (here refl)))),
      )
    ]
