-- ===== src/Plans/Reuse.antt =====
-- Which plan `reusablePlan` returns.
use relkit.Prelude.{
  ap, subst, true, false, Option, none, some, List, [], ◌∷◌, ℤ, Str, ◌≡◌, ◌⊎◌, inl, inr, refl, sym,
  ◌∙◌, In, here, there, In-cons, arith, Bool-cases,
}
use relkit.Plans.{UpdatePlan, Disk, load_plan}
use relkit.Plans.Build.{
  Sealing, list_dir, qualified, candidate, beats, better_of, scan_plans, reusable_plan,
}

module _ (disk : Disk) where
  beats_irrefl : (p : UpdatePlan) → beats disk p p ≡ false
  unfolding beats
  beats_irrefl p = ground arith

  beats_asym : (p q : UpdatePlan) → beats disk p q ≡ true → beats disk q p ≡ false
  unfolding beats
  beats_asym p q h = ground arith

  beats_not_trans :
      (p q r : UpdatePlan)
      → beats disk p q ≡ false
      → beats disk q r ≡ false
      → beats disk p r ≡ false
  unfolding beats
  beats_not_trans p q r h k = ground arith

  better_of-best :
      (b : UpdatePlan) (o : Option UpdatePlan)
      → (c : UpdatePlan) × (better_of disk (some b) o ≡ some c) × (beats disk b c ≡ false)
  unfolding better_of
  better_of-best b none = (b, refl, beats_irrefl b)
  better_of-best b (some p) = elim (Bool-cases (beats disk p b)) [
    | inl e ↦ (p, rw e refl, beats_asym p b e)
    | inr e ↦ (b, rw e refl, beats_irrefl b)
  ]

  better_of-new :
      (best : Option UpdatePlan) (p : UpdatePlan)
      → (c : UpdatePlan) × (better_of disk best (some p) ≡ some c) × (beats disk p c ≡ false)
  unfolding better_of
  better_of-new none p = (p, refl, beats_irrefl p)
  better_of-new (some b) p = elim (Bool-cases (beats disk p b)) [
    | inl e ↦ (p, rw e refl, beats_irrefl p)
    | inr e ↦ (b, rw e refl, e)
  ]

module _ (s : Sealing) (disk : Disk) (key : Str) (want : UpdatePlan) (now : ℤ) where
  next : Str → Option UpdatePlan
  next id = candidate s key want now id (load_plan id disk)

  scan_plans-best :
      (ids : List Str) (b : UpdatePlan) (o : Option UpdatePlan)
      → o ≡ some b
      → (p : UpdatePlan) × (scan_plans s disk key want now ids o ≡ some p)
        × (beats disk b p ≡ false)
  unfolding scan_plans
  scan_plans-best [] b o e = (b, e, beats_irrefl disk b)
  scan_plans-best (id ∷ ids) b o e =
      let (c, q, h) = better_of-best disk b (candidate s key want now id (load_plan id disk)) in
      let (p, w, k) =
        scan_plans-best ids c _
          (ap (λ x. better_of disk x (candidate s key want now id (load_plan id disk))) e ∙ q) in
      (p, w, beats_not_trans disk b c p h k)

  scan_plans-covers :
      (ids : List Str) (best : Option UpdatePlan) (id : Str) (q : UpdatePlan)
      → In id ids
      → candidate s key want now id (load_plan id disk) ≡ some q
      → (p : UpdatePlan) × (scan_plans s disk key want now ids best ≡ some p)
        × (beats disk q p ≡ false)
  unfolding scan_plans
  scan_plans-covers [] best id q i e = elim i [ ]
  scan_plans-covers (x ∷ ids) best id q i e = elim (In-cons i) [
    | inl d ↦
        let (c, w, h) = better_of-new disk best q in
        let found : candidate s key want now x (load_plan x disk) ≡ some q =
          subst (λ y. candidate s key want now y (load_plan y disk) ≡ some q) d e in
        let (p, v, k) = scan_plans-best ids c _ (ap (λ y. better_of disk best y) found ∙ w) in
        (p, v, beats_not_trans disk q c p h k)
    | inr j ↦ scan_plans-covers ids _ id q j e
  ]

  -- A result is a stored plan that qualifies, or was the best before.
  scan_plans-from :
      (ids : List Str) (best : Option UpdatePlan) (p : UpdatePlan)
      → scan_plans s disk key want now ids best ≡ some p
      → (best ≡ some p)
        ⊎ ((id : Str) × In id ids × (candidate s key want now id (load_plan id disk) ≡ some p))
  unfolding scan_plans better_of
  scan_plans-from [] best p e = inl e
  scan_plans-from (x ∷ ids) best p e = elim (scan_plans-from ids _ p e) [
    | inl d ↦ elim (from_better best (candidate s key want now x (load_plan x disk)) d) [
      | inl b ↦ inl b
      | inr c ↦ inr (x, here refl, c)
    ]
    | inr (id, i, c) ↦ inr (id, there i, c)
  ]
    where
      from_better :
          (b o : Option UpdatePlan) → better_of disk b o ≡ some p → (b ≡ some p) ⊎ (o ≡ some p)
      from_better b none d = inl d
      from_better none (some q) d = inr d
      from_better (some b) (some q) d = elim (Bool-cases (beats disk q b)) [
        | inl h ↦ inr (rw (h, better_of) at d)
        | inr h ↦ inl (rw (h, better_of) at d)
      ]

  pub candidate-qualified :
      (id : Str) (o : Option UpdatePlan) (p : UpdatePlan)
      → candidate s key want now id o ≡ some p
      → (o ≡ some p) × (qualified s key want now id p ≡ true)
  unfolding candidate
  candidate-qualified id none p e = absurd (none_is_some e)
    where
      none_is_some : ◌≡◌ {A = Option UpdatePlan} none (some p) → ⊥
      none_is_some d = cc
  candidate-qualified id (some q) p e = elim (Bool-cases (qualified s key want now id q)) [
    | inl h ↦
        let d = rw (h, candidate) at e in
        (d, ap (qualified s key want now id) (sym (some_inj d)) ∙ h)
    | inr h ↦ absurd (none_is_some (rw (h, candidate) at e))
  ]
    where
      none_is_some : ◌≡◌ {A = Option UpdatePlan} none (some p) → ⊥
      none_is_some d = cc

      some_inj : ◌≡◌ {A = Option UpdatePlan} (some q) (some p) → q ≡ p
      some_inj d = cc

  pub candidate_of_qualified :
      (id : Str) (o : Option UpdatePlan) (p : UpdatePlan)
      → o ≡ some p
      → qualified s key want now id p ≡ true
      → candidate s key want now id o ≡ some p
  unfolding candidate
  candidate_of_qualified id o p e h = rw (e, candidate, h) refl

  pub reusable_plan-qualified :
      (p : UpdatePlan)
      → reusable_plan s disk key want now ≡ some p
      → (id : Str) × In id (list_dir disk)
        × (load_plan id disk ≡ some p)
        × (qualified s key want now id p ≡ true)
  unfolding reusable_plan
  reusable_plan-qualified p e = elim (scan_plans-from (list_dir disk) none p e) [
    | inl d ↦ absurd (none_is_some d)
    | inr (id, i, c) ↦ let (d, h) = candidate-qualified id (load_plan id disk) p c in (id, i, d, h)
  ]
    where
      none_is_some : ◌≡◌ {A = Option UpdatePlan} none (some p) → ⊥
      none_is_some d = cc

  pub reusable_plan-best :
      (id : Str) (q : UpdatePlan)
      → In id (list_dir disk)
      → load_plan id disk ≡ some q
      → qualified s key want now id q ≡ true
      → (p : UpdatePlan) × (reusable_plan s disk key want now ≡ some p) × (beats disk q p ≡ false)
  unfolding reusable_plan
  reusable_plan-best id q i e h =
      scan_plans-covers (list_dir disk) none id q i (candidate_of_qualified id _ q e h)
