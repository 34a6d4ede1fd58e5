-- ===== src/Sdk/State/Marks.antt =====
-- The high-water marks against rollback, the skip list and the throttle.
use relkit.Prelude.{
  ◌≡◌, refl, sym, true, false, Option, none, some, List, [], ◌∷◌, ◌++◌, ℤ, Str, leb_ℤ, ltb_ℤ, eqb_ℤ,
  eqb_ℤ_iff, ◌≤ℤ◌, In, here, there, In-cons, In-any, any-In, arith, ◌⊎◌, inl, inr, ◌↔◌, Bool-cases,
  +ℤ_parts, -ℤ_parts, subst,
}
use relkit.Sdk.State.{
  accepts_sequence, raise_mark, observe_sequence, UpdateState, skip, is_skipped, insert_int,
  sort_ints, should_check, next_allowed_at, wait_after, Policy,
}

-- A mark that is at least another.
abbrev pub AtLeast : Option ℤ → Option ℤ → Type 0
AtLeast new none = Unit {0}
AtLeast none (some old) = ⊥
AtLeast (some new) (some old) = old ≤ℤ new

pub AtLeast-refl : (m : Option ℤ) → AtLeast m m
AtLeast-refl none = tt
AtLeast-refl (some a) = omega arith

pub AtLeast-trans : (a b c : Option ℤ) → AtLeast a b → AtLeast b c → AtLeast a c
AtLeast-trans a b none h k = tt
AtLeast-trans none none (some c) h k = absurd k
AtLeast-trans none (some b) (some c) h k = absurd h
AtLeast-trans (some a) none (some c) h k = absurd k
AtLeast-trans (some a) (some b) (some c) h k = omega arith

-- Observing a sequence never lowers the mark, and covers the sequence.
pub raise_mark-AtLeast :
    (m : Option ℤ) (s : ℤ) → AtLeast (raise_mark m s) m × AtLeast (raise_mark m s) (some s)
unfolding raise_mark
raise_mark-AtLeast none s = (tt, omega arith)
raise_mark-AtLeast (some a) s = (ground arith, ground arith)

-- What is accepted is not below the mark.
pub accepts-AtLeast : (m : Option ℤ) (s : ℤ) → accepts_sequence s m ≡ true → AtLeast (some s) m
unfolding accepts_sequence
accepts-AtLeast none s h = tt
accepts-AtLeast (some a) s h = ground arith

refused_below :
    (m : Option ℤ) (s older : ℤ)
    → AtLeast m (some s)
    → ltb_ℤ older s ≡ true
    → accepts_sequence older m ≡ false
unfolding accepts_sequence
refused_below none s older h lt = absurd h
refused_below (some a) s older h lt = ground arith

-- The state after indexes with these sequences were accepted, one after the other.
unfoldable pub observe_all : List ℤ → UpdateState → UpdateState
observe_all [] s = s
observe_all (sequence ∷ later) s = observe_all later (observe_sequence sequence s)

observe_all-AtLeast :
    (l : List ℤ) (s : UpdateState)
    → AtLeast (observe_all l s).last_seen_sequence s.last_seen_sequence
unfolding observe_all observe_sequence
observe_all-AtLeast [] s = AtLeast-refl s.last_seen_sequence
observe_all-AtLeast (c ∷ l) s =
    AtLeast-trans (observe_all (c ∷ l) s).last_seen_sequence (raise_mark s.last_seen_sequence c)
      s.last_seen_sequence (observe_all-AtLeast l (observe_sequence c s))
      (raise_mark-AtLeast s.last_seen_sequence c).0

covered :
    (l : List ℤ) (s : UpdateState) (sequence : ℤ)
    → In sequence l
    → AtLeast (observe_all l s).last_seen_sequence (some sequence)
unfolding observe_all observe_sequence
covered [] s sequence i = elim i [ ]
covered (c ∷ l) s sequence (here e) =
    AtLeast-trans (observe_all (c ∷ l) s).last_seen_sequence (raise_mark s.last_seen_sequence c)
      (some sequence) (observe_all-AtLeast l (observe_sequence c s))
      (rw e ((raise_mark-AtLeast s.last_seen_sequence c).1))
covered (c ∷ l) s sequence (there i) = covered l (observe_sequence c s) sequence i

-- However many sequences were observed, in whatever order and from whatever state, each sequence
-- that is below one of them is refused.
pub replay_refused :
    (l : List ℤ) (s : UpdateState) (sequence older : ℤ)
    → In sequence l
    → ltb_ℤ older sequence ≡ true
    → accepts_sequence older (observe_all l s).last_seen_sequence ≡ false
replay_refused l s sequence older i lt =
    refused_below (observe_all l s).last_seen_sequence sequence older (covered l s sequence i) lt

In-insert_int : (a c : ℤ) (l : List ℤ) → (a ≡ c) ⊎ In a l → In a (insert_int c l)
unfolding insert_int
In-insert_int a c [] (inl e) = here e
In-insert_int a c [] (inr i) = elim i [ ]
In-insert_int a c (d ∷ l) w = elim (Bool-cases (ltb_ℤ d c)) [
  | inl e ↦ rw e (elim w [
    | inl p ↦ there (In-insert_int a c l (inl p))
    | inr i ↦ elim (In-cons i) [ inl q ↦ here q | inr j ↦ there (In-insert_int a c l (inr j)) ]
  ])
  | inr e ↦ rw e (elim w [ inl p ↦ here p | inr i ↦ there i ])
]

insert_int-In : (a c : ℤ) (l : List ℤ) → In a (insert_int c l) → (a ≡ c) ⊎ In a l
unfolding insert_int
insert_int-In a c [] i = In-cons i
insert_int-In a c (d ∷ l) i = elim (Bool-cases (ltb_ℤ d c)) [
  | inl e ↦ elim (In-cons (rw e at i)) [
    | inl q ↦ inr (here q)
    | inr j ↦ elim (insert_int-In a c l j) [ inl p ↦ inl p | inr k ↦ inr (there k) ]
  ]
  | inr e ↦ In-cons (rw e at i)
]

sort_ints_iff : (a : ℤ) (l : List ℤ) → In a (sort_ints l) ↔ In a l
unfolding sort_ints
sort_ints_iff a [] = (λ i. i, λ i. i)
sort_ints_iff a (c ∷ l) = (
  λ i. elim (insert_int-In a c (sort_ints l) i) [
    | inl e ↦ here e
    | inr j ↦ there ((sort_ints_iff a l).0 j)
  ],
  λ i.
      In-insert_int a c (sort_ints l)
        (elim (In-cons i) [ inl e ↦ inl e | inr j ↦ inr ((sort_ints_iff a l).1 j) ]),
)

append_iff : (a c : ℤ) (l : List ℤ) → In a (l ++ c ∷ []) ↔ ((a ≡ c) ⊎ In a l)
append_iff a c [] = (λ i. In-cons i, λ w. elim w [ inl e ↦ here e | inr i ↦ there i ])
append_iff a c (d ∷ l) = (
  λ i. elim (In-cons i) [
    | inl e ↦ inr (here e)
    | inr j ↦ elim ((append_iff a c l).0 j) [ inl e ↦ inl e | inr k ↦ inr (there k) ]
  ],
  λ w. elim w [
    | inl e ↦ there ((append_iff a c l).1 (inl e))
    | inr i ↦ elim (In-cons i) [ inl e ↦ here e | inr j ↦ there ((append_iff a c l).1 (inr j)) ]
  ],
)

is_skipped_iff : (c : ℤ) (s : UpdateState) → (is_skipped c s ≡ true) ↔ In c s.skipped
unfolding is_skipped
is_skipped_iff c s = (
  λ h.
      let (d, i, e) = any-In (λ x. eqb_ℤ x c) s.skipped h in
      subst (λ z. In z s.skipped) ((eqb_ℤ_iff d c).0 e) i,
  λ i. In-any (λ x. eqb_ℤ x c) s.skipped i ((eqb_ℤ_iff c c).1 refl),
)

skip_again : (c : ℤ) (s : UpdateState) → is_skipped c s ≡ true → skip c s ≡ s
unfolding skip
skip_again c s e = rw e

skip_new :
    (c : ℤ) (s : UpdateState)
    → is_skipped c s ≡ false
    → (skip c s).skipped ≡ sort_ints (s.skipped ++ c ∷ [])
unfolding skip
skip_new c s e = rw e

-- After a code was skipped, the skipped codes are that code and those skipped before.
pub skip_iff :
    (c d : ℤ) (s : UpdateState)
    → (is_skipped d (skip c s) ≡ true) ↔ ((d ≡ c) ⊎ (is_skipped d s ≡ true))
skip_iff c d s = elim (Bool-cases (is_skipped c s)) [
  | inl old ↦ rw (skip_again c s old) (λ h. inr h, λ w. elim w [ inl e ↦ rw e old | inr h ↦ h ])
  | inr new ↦ (
    λ h.
        elim ((append_iff d c s.skipped).0 (
          (sort_ints_iff d _).0
            (subst (λ l. In d l) (skip_new c s new) ((is_skipped_iff d (skip c s)).0 h)))) [
              | inl e ↦ inl e
              | inr i ↦ inr ((is_skipped_iff d s).1 i)
            ],
    λ w. (is_skipped_iff d (skip c s)).1 (
        subst (λ l. In d l) (sym (skip_new c s new))
          ((sort_ints_iff d _).1 (
            (append_iff d c s.skipped).1
              (elim w [ inl e ↦ inl e | inr h ↦ inr ((is_skipped_iff d s).0 h) ])))),
  )
]

-- After an earlier check, `ShouldCheck` allows the next one exactly from the instant that
-- `NextAllowedAt` names.
pub should_check_iff :
    (p : Policy) (last : ℤ) (result : Str) (now : ℤ) {next : ℤ}
    → next_allowed_at p (some last) result ≡ some next
    → should_check p (some last) result now ≡ leb_ℤ next now
unfolding should_check next_allowed_at
should_check_iff p last result now e =
    ground (arith, +ℤ_parts last (wait_after p result), -ℤ_parts now last)
