-- ===== src/Plans/Bounded.antt =====
-- Why staged files outlive a sweep.
use relkit.Prelude.{
  eq_of_==, ap, ◌-ℤ◌, Bool, true, false, not, ◌&&◌, ◌||◌, Option, none, some, List, ℤ, Str, str,
  ◌≡◌, inl, inr, refl, sym, ◌∙◌, In, keep-In, any-In, any-false, arith, ltb_ℤ, Bool-cases,
  false≢true, if◌then◌else◌, any,
}
use relkit.Prelude.Text.{has_suffix}
use relkit.Plans.{UpdatePlan, Entry, Disk, plan_ttl, id_of, listing}
use relkit.Plans.Sweep.{
  protected_by, Verdict, judge_expiry, judge_record, judge_named, judge, is_named, marked,
  staged_goes, swept_staging, sweep, leave,
}

-- The plan of a record did not expire.
pub data IsUnexpired (now : ℤ) (plan : UpdatePlan) : Type 0 where
  endless : plan.expires_at ≡ none → IsUnexpired now plan
  later : (t : ℤ) → plan.expires_at ≡ some t → ltb_ℤ now t ≡ true → IsUnexpired now plan

-- The system refuses to remove the entry, a live session protects the id, or a stored plan with the id
-- did not expire.
pub data IsKept (now : ℤ) (disk : Disk) (e : Entry (Unit {0})) : Type 0 where
  unmovable : e.held ≡ true → IsKept now disk e
  in_use : protected_by now disk e.name ≡ true → IsKept now disk e
  planned :
      (f : Entry UpdatePlan) (plan : UpdatePlan)
      → In f (listing disk.plans)
      → id_of f.name ≡ some e.name
      → f.content ≡ some plan
      → IsUnexpired now plan
      → IsKept now disk e

expiry_known :
    (now : ℤ) (plan : UpdatePlan) (o : Option ℤ)
    → plan.expires_at ≡ o
    → (judge_expiry now false o).known ≡ true
    → (judge_expiry now false o).drop_staged ≡ false
    → IsUnexpired now plan
unfolding judge_expiry
expiry_known now plan none e k d = endless e
expiry_known now plan (some t) e k d = elim (Bool-cases (ltb_ℤ now t)) [
  | inl h ↦ later t e h
  | inr h ↦ absurd (false≢true (sym d ∙ dropped h))
]
  where
    dropped : ltb_ℤ now t ≡ false → (judge_expiry now false (some t)).drop_staged ≡ true
    dropped h = rw (h, judge_expiry) refl

record_known :
    (now : ℤ) (o : Option UpdatePlan)
    → (judge_record now false o).known ≡ true
    → (judge_record now false o).drop_staged ≡ false
    → (plan : UpdatePlan) × (o ≡ some plan) × IsUnexpired now plan
unfolding judge_record
record_known now none k d = absurd (false≢true k)
record_known now (some plan) k d = (plan, refl, expiry_known now plan plan.expires_at refl k d)

named_known :
    (now : ℤ) (protected : Str → Bool) (o : Option Str) (content : Option UpdatePlan) (id : Str)
    → o ≡ some id
    → protected id ≡ false
    → (judge_named now protected o content).known ≡ true
    → (judge_named now protected o content).drop_staged ≡ false
    → (plan : UpdatePlan) × (content ≡ some plan) × IsUnexpired now plan
unfolding judge_named
named_known now protected o content id e p k d =
    record_known now content (rw (e, p, judge_named) at k) (rw (e, p, judge_named) at d)

judge_known :
    (now : ℤ) (protected : Str → Bool) (f : Entry UpdatePlan) (id : Str)
    → id_of f.name ≡ some id
    → protected id ≡ false
    → (judge now protected f).known ≡ true
    → (judge now protected f).drop_staged ≡ false
    → (plan : UpdatePlan) × (f.content ≡ some plan) × IsUnexpired now plan
unfolding judge
judge_known now protected f id n p k d = go f.is_dir (has_suffix f.name (str ".tmp")) k d
  where
    other : Verdict
    other = record {
      drop_record = ltb_ℤ plan_ttl (now -ℤ f.mod_time);
      drop_staged = false;
      known = false;
    }

    go :
        (a b : Bool)
        → (if a
            then leave
            else if b
            then other
            else judge_named now protected (id_of f.name) f.content).known
          ≡ true
        → (if a
            then leave
            else if b
            then other
            else judge_named now protected (id_of f.name) f.content).drop_staged
          ≡ false
        → (plan : UpdatePlan) × (f.content ≡ some plan) × IsUnexpired now plan
    go true b x y = absurd (false≢true x)
    go false true x y = absurd (false≢true x)
    go false false x y = named_known now protected (id_of f.name) f.content id n p x y

is_named-some : (id : Str) (o : Option Str) → is_named id o ≡ true → o ≡ some id
unfolding is_named
is_named-some id none e = absurd (false≢true e)
is_named-some id (some x) e = ap some (eq_of_== x id e)

both : (a b : Bool) → (a && b) ≡ true → (a ≡ true) × (b ≡ true)
both true true e = (refl, refl)
both true false e = absurd (false≢true e)
both false b e = absurd (false≢true e)

-- Staged files that no rule removes belong to a protected or an unexpired plan.
stays_for :
    (now : ℤ) (disk : Disk) (e : Entry (Unit {0}))
    → staged_goes now (protected_by now disk) (listing disk.plans) e.name ≡ false
    → IsKept now disk e
unfolding staged_goes marked
stays_for now disk e h = elim (Bool-cases (protected_by now disk e.name)) [
  | inl p ↦ in_use p
  | inr p ↦
      let (undropped, known) = split (marked_drop) (marked_known) (rw p at h) in
      let (f, i, w) = any-In _ (listing disk.plans) known in
      let (k, n) = both _ _ w in
      let named = is_named-some e.name (id_of f.name) n in
      let (plan, c, u) =
        judge_known now (protected_by now disk) f e.name named p k
          (not_dropped f n (any-false _ (listing disk.plans) undropped i)) in
      planned f plan i named c u
]
  where
    marked_drop : Bool
    marked_drop =
        any
          (λ f. (judge now (protected_by now disk) f).drop_staged && is_named e.name (id_of f.name))
          (listing disk.plans)

    marked_known : Bool
    marked_known =
        any (λ f. (judge now (protected_by now disk) f).known && is_named e.name (id_of f.name))
          (listing disk.plans)

    split : (a b : Bool) → (a || not (b || false)) ≡ false → (a ≡ false) × (b ≡ true)
    split true b x = absurd (false≢true (sym x))
    split false true x = (refl, refl)
    split false false x = absurd (false≢true (sym x))

    not_dropped :
        (f : Entry UpdatePlan)
        → is_named e.name (id_of f.name) ≡ true
        → ((judge now (protected_by now disk) f).drop_staged && is_named e.name (id_of f.name))
          ≡ false
        → (judge now (protected_by now disk) f).drop_staged ≡ false
    not_dropped f n x = ground (arith, n, x)

-- Each staging entry that is left after a sweep cannot be removed, or is protected by a live
-- session, or has the id of a stored plan that can be read and that did not expire.
pub sweep-IsKept :
    (now : ℤ) (disk : Disk) (e : Entry (Unit {0}))
    → In e (listing (sweep now disk).staging)
    → IsKept now disk e
unfolding sweep swept_staging
sweep-IsKept now disk e i = from disk.staging i
  where
    reason :
        (a b : Bool)
        → e.held ≡ a
        → staged_goes now (protected_by now disk) (listing disk.plans) e.name ≡ b
        → (a || not b) ≡ true
        → IsKept now disk e
    reason true b h g x = unmovable h
    reason false true h g x = absurd (false≢true x)
    reason false false h g x = stays_for now disk e g

    from :
        (o : Option (List (Entry (Unit {0}))))
        → In e (listing (swept_staging now (protected_by now disk) (listing disk.plans) o))
        → IsKept now disk e
    from none j = elim j [ ]
    from (some entries) j =
        reason e.held (staged_goes now (protected_by now disk) (listing disk.plans) e.name) refl
          refl (keep-In _ entries j).1
