-- ===== src/Inprocess/Distinct.antt =====
-- `uniqueStrings`.
use relkit.Prelude.{
  ◌≡◌, ◌≢◌, refl, sym, subst, ◌∙◌, Bool, true, ◌||◌, false≢true, Bool-cases, inl, inr, ◌⊎◌, ◌↔◌,
  List, [], ◌∷◌, Str, ◌==◌, eq_iff, ==-refl, ne_of_==, any, any-In, In-any, In, In-cons, here,
  there,
}
use relkit.Inprocess.Sources.{unique_after, unique_strings}

-- No string stands twice in the list.
pub data Distinct : List Str → Type 0 where
  done : Distinct []
  more : (s : Str) (l : List Str) → ¬ In s l → Distinct l → Distinct (s ∷ l)

-- The test of the loop.
abbrev drops : List Str → Str → Bool
drops seen s = (s == []) || any (λ t. t == s) seen

drops_iff : (seen : List Str) (s : Str) → (drops seen s ≡ true) ↔ ((s ≡ []) ⊎ In s seen)
drops_iff seen s = (
  λ h. elim (Bool-cases (s == [])) [
    | inl e ↦ inl ((eq_iff s []).0 e)
    | inr n ↦ inr (
        let (t, i, q) = any-In (λ t. t == s) seen (rw n at h) in
        subst (λ z. In z seen) ((eq_iff t s).0 q) i)
  ],
  λ m. elim m [
    | inl e ↦ rw ((eq_iff s []).1 e)
    | inr i ↦ elim (Bool-cases (s == [])) [
      | inl e ↦ rw e
      | inr n ↦ rw n (In-any (λ t. t == s) seen i (==-refl s))
    ]
  ],
)

unique-In :
    (seen : List Str) (l : List Str) {s : Str}
    → In s (unique_after seen l)
    → In s l × (s ≢ []) × ¬ In s seen
unfolding unique_after
unique-In seen [] i = elim i [ ]
unique-In seen (t ∷ l) {s} i = elim (Bool-cases (drops seen t)) [
  | inl d ↦ let (j, n, k) = unique-In seen l (rw d at i) in (there j, n, k)
  | inr d ↦ elim (In-cons (rw d at i)) [
    | inl e ↦ (
      here e,
      λ q. absurd (false≢true (sym d ∙ (drops_iff seen t).1 (inl (sym e ∙ q)))),
      λ k. absurd (false≢true (sym d ∙ (drops_iff seen t).1 (inr (subst (λ z. In z seen) e k)))),
    )
    | inr j ↦ let (m, n, k) = unique-In (t ∷ seen) l j in (there m, n, λ q. k (there q))
  ]
]

In-unique :
    (seen : List Str) (l : List Str) {s : Str}
    → In s l
    → s ≢ []
    → (In s seen → ⊥)
    → In s (unique_after seen l)
unfolding unique_after
In-unique seen [] i n k = elim i [ ]
In-unique seen (t ∷ l) {s} i n k = elim (Bool-cases (drops seen t)) [
  | inl d ↦ rw d (elim (In-cons i) [
    | inl e ↦ absurd (elim ((drops_iff seen t).0 d) [
      | inl q ↦ n (e ∙ q)
      | inr q ↦ k (subst (λ z. In z seen) (sym e) q)
    ])
    | inr j ↦ In-unique seen l j n k
  ])
  | inr d ↦ rw d (elim (Bool-cases (s == t)) [
    | inl e ↦ here ((eq_iff s t).0 e)
    | inr ne ↦ there (elim (In-cons i) [
      | inl e ↦ absurd (ne_of_== s t ne e)
      | inr j ↦
          In-unique (t ∷ seen) l j n
            (λ q. elim (In-cons q) [ inl e ↦ ne_of_== s t ne e | inr q' ↦ k q' ])
    ])
  ])
]

unique-Distinct : (seen : List Str) (l : List Str) → Distinct (unique_after seen l)
unfolding unique_after
unique-Distinct seen [] = done
unique-Distinct seen (t ∷ l) = elim (Bool-cases (drops seen t)) [
  | inl d ↦ rw d (unique-Distinct seen l)
  | inr d ↦ rw d (
      more t (unique_after (t ∷ seen) l) (λ i. (unique-In (t ∷ seen) l i).2 (here refl))
        (unique-Distinct (t ∷ seen) l))
]

-- `uniqueStrings` returns each string of the list except the empty one, and none twice.
pub unique_strings-Distinct :
    (l : List Str)
    → Distinct (unique_strings l) × ((s : Str) → In s (unique_strings l) ↔ (In s l × (s ≢ [])))
unfolding unique_strings
unique_strings-Distinct l = (
  unique-Distinct [] l,
  λ s. (
    λ i. let (j, n, _) = unique-In [] l i in (j, n),
    λ p. In-unique [] l p.0 p.1 (λ q. elim q [ ]),
  ),
)
