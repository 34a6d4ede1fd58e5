-- ===== src/Plans/Spared.antt =====
-- What a live session uses outlives a sweep.
use mathlib.Core.List.{reverse}
use relkit.Prelude.{
  Bool, true, false, not, ◌&&◌, ◌||◌, Option, none, some, List, [], ◌∷◌, ◌++◌, ℤ, Str, str, ◌==◌,
  eq_of_==, ◌≡◌, inl, inr, refl, sym, ◌∙◌, ap, subst, In, here, there, In-cons, In-keep, any-In,
  In-any, arith, Bool-cases, false≢true, if◌then◌else◌, any, keep, map,
}
use relkit.Prelude.Text.{has_prefix, has_suffix}
use relkit.Plans.{UpdatePlan, Session, Entry, Disk, id_of, listing}
use relkit.Plans.Sweep.{
  leave, session_is_live, readable, read_sessions, live_sessions, protects, is_protected,
  protected_by, judge_expiry, judge_record, judge_named, judge, is_named, marked, staged_goes,
  swept_plans, swept_staging, sweep,
}

-- A session record that can be read and that is at work.
pub record IsLive (now : ℤ) (disk : Disk) (sess : Session) : Type 0 where
  pub entry : Entry Session
  pub is_listed : In entry (listing disk.sessions)
  pub is_file : entry.is_dir ≡ false
  pub is_record : has_suffix entry.name (str ".pb") ≡ true
  pub reads : entry.content ≡ some sess
  pub is_alive : session_is_live sess now ≡ true

readable-In :
    (e : Entry Session) (sess : Session) (rest : List (Str × Session))
    → e.is_dir ≡ false
    → has_suffix e.name (str ".pb") ≡ true
    → In (e.name, sess) (readable e (some sess) ++ rest)
unfolding readable
readable-In e sess rest d r = rw (d, r, readable) (here refl)

In-append_right : {A : Type 0} {a : A} (xs ys : List A) → In a ys → In a (xs ++ ys)
In-append_right [] ys i = i
In-append_right (x ∷ xs) ys i = there (In-append_right xs ys i)

read_sessions-In :
    (entries : List (Entry Session)) (e : Entry Session) (sess : Session)
    → In e entries
    → e.is_dir ≡ false
    → has_suffix e.name (str ".pb") ≡ true
    → e.content ≡ some sess
    → In (e.name, sess) (read_sessions entries)
unfolding read_sessions
read_sessions-In [] e sess i d r c = elim i [ ]
read_sessions-In (x ∷ rest) e sess i d r c = elim (In-cons i) [
  | inl p ↦
      subst (λ y. In (e.name, sess) (readable y y.content ++ read_sessions rest)) p
        (subst (λ o. In (e.name, sess) (readable e o ++ read_sessions rest)) (sym c)
          (readable-In e sess (read_sessions rest) d r))
  | inr j ↦ In-append_right (readable x x.content) _ (read_sessions-In rest e sess j d r c)
]

map-In : {A B : Type 0} {a : A} (f : A → B) (xs : List A) → In a xs → In (f a) (map f xs)
map-In f [] i = elim i [ ]
map-In f (x ∷ xs) i = elim (In-cons i) [ inl e ↦ here (ap f e) | inr j ↦ there (map-In f xs j) ]

live_sessions-In :
    (now : ℤ) (disk : Disk) (sess : Session)
    → IsLive now disk sess
    → In sess (live_sessions now (listing disk.sessions))
unfolding live_sessions
live_sessions-In now disk sess l =
    map-In (λ r. r.1) _
      (In-keep (λ r. session_is_live r.1 now) _
        (read_sessions-In (listing disk.sessions) l.entry sess l.is_listed l.is_file l.is_record
          l.reads)
        l.is_alive)

pub protected_by-live :
    (now : ℤ) (disk : Disk) (sess : Session) (id : Str)
    → IsLive now disk sess
    → protects disk.data_dir id sess ≡ true
    → protected_by now disk id ≡ true
unfolding protected_by is_protected
protected_by-live now disk sess id l p =
    In-any (protects disk.data_dir id) _ (live_sessions-In now disk sess l) p

module _ (now : ℤ) where
  judge_expiry-protected :
      (o : Option ℤ)
      → ((judge_expiry now true o).drop_staged ≡ false)
        × ((judge_expiry now true o).drop_record ≡ false)
  unfolding judge_expiry
  judge_expiry-protected none = (refl, refl)
  judge_expiry-protected (some t) = (refl, refl)

  judge_record-protected :
      (o : Option UpdatePlan)
      → ((judge_record now true o).drop_staged ≡ false)
        × ((judge_record now true o).drop_record ≡ false)
  unfolding judge_record
  judge_record-protected none = (refl, refl)
  judge_record-protected (some p) = judge_expiry-protected p.expires_at

  -- A plan's record is no temporary file.
  pb_or_tmp :
      (name : Str) → has_suffix name (str ".pb") ≡ true → has_suffix name (str ".tmp") ≡ false
  unfolding has_suffix
  pb_or_tmp name e = first_byte (reverse name) e
    where
      first_byte :
          (s : Str)
          → has_prefix s (reverse (str ".pb")) ≡ true
          → has_prefix s (reverse (str ".tmp")) ≡ false
      first_byte [] h = absurd (false≢true h)
      first_byte (c ∷ s) h = ground arith

  id_of-has_suffix :
      (name : Str) {id : Str} → id_of name ≡ some id → has_suffix name (str ".pb") ≡ true
  unfolding id_of
  id_of-has_suffix name {id} e = elim (Bool-cases (has_suffix name (str ".pb"))) [
    | inl h ↦ h
    | inr h ↦ absurd (none_is_some (rw (h, id_of) at e))
  ]
    where
      none_is_some : ◌≡◌ {A = Option Str} none (some id) → ⊥
      none_is_some p = cc

  judge-protected :
      (protected : Str → Bool) (e : Entry UpdatePlan) (id : Str)
      → id_of e.name ≡ some id
      → protected id ≡ true
      → ((judge now protected e).drop_staged ≡ false)
        × ((judge now protected e).drop_record ≡ false)
  unfolding judge judge_named
  judge-protected protected e id n p =
      rw (pb_or_tmp e.name (id_of-has_suffix e.name n), n, p) (either e.is_dir)
    where
      either :
          (b : Bool)
          → ((if b then leave else judge_record now true e.content).drop_staged ≡ false)
            × ((if b then leave else judge_record now true e.content).drop_record ≡ false)
      either true = (refl, refl)
      either false = judge_record-protected e.content

  is_named-some : (id : Str) (o : Option Str) → is_named id o ≡ true → o ≡ some id
  unfolding is_named
  is_named-some id none e = absurd (false≢true e)
  is_named-some id (some x) e = ap some (eq_of_== x id e)

  staged_goes-protected :
      (protected : Str → Bool) (entries : List (Entry UpdatePlan)) (id : Str)
      → protected id ≡ true
      → staged_goes now protected entries id ≡ false
  unfolding staged_goes marked
  staged_goes-protected protected entries id p =
      rw (p, unmarked)
        (known (any (λ e. (judge now protected e).known && is_named id (id_of e.name)) entries))
    where
      known : (b : Bool) → (false || not (b || true)) ≡ false
      known true = refl
      known false = refl

      both : (a b : Bool) → (a && b) ≡ true → (a ≡ true) × (b ≡ true)
      both true true e = (refl, refl)
      both true false e = absurd (false≢true e)
      both false b e = absurd (false≢true e)

      unmarked :
          any (λ e. (judge now protected e).drop_staged && is_named id (id_of e.name)) entries
          ≡ false
      unmarked =
          elim (Bool-cases (
            any (λ e. (judge now protected e).drop_staged && is_named id (id_of e.name)) entries)) [
              | inl found ↦
                  let (e, i, h) =
                    any-In (λ e. (judge now protected e).drop_staged && is_named id (id_of e.name))
                      entries found in
                  let (d, n) = both _ _ h in
                  absurd (
                    false≢true (
                      sym (judge-protected protected e id (is_named-some id (id_of e.name) n) p).0
                      ∙ d))
              | inr absent ↦ absent
            ]

keep-keep :
    {A : Type 0} (p q : A → Bool) (xs : List A)
    → ((x : A) → p x ≡ true → q x ≡ true)
    → keep p (keep q xs) ≡ keep p xs
keep-keep p q [] h = refl
keep-keep p q (x ∷ xs) h = elim (Bool-cases (p x)) [
  | inl a ↦ rw (h x a, a) (ap (λ ys. x ∷ ys) (keep-keep p q xs h))
  | inr a ↦ elim (Bool-cases (q x)) [
    | inl b ↦ rw (b, a) (keep-keep p q xs h)
    | inr b ↦ rw (b, a) (keep-keep p q xs h)
  ]
]

or_true : (b : Bool) → (b || true) ≡ true
or_true true = refl
or_true false = refl

-- The records and the staged files with an id.
abbrev pub records_of : Str → Disk → List (Entry UpdatePlan)
records_of id disk = keep (λ e. is_named id (id_of e.name)) (listing disk.plans)

abbrev pub staged_of : Str → Disk → List (Entry (Unit {0}))
staged_of id disk = keep (λ e. e.name == id) (listing disk.staging)

records_stay :
    (now : ℤ) (protected : Str → Bool) (o : Option (List (Entry UpdatePlan))) (id : Str)
    → protected id ≡ true
    → keep (λ e. is_named id (id_of e.name)) (listing (swept_plans now protected o))
      ≡ keep (λ e. is_named id (id_of e.name)) (listing o)
unfolding swept_plans
records_stay now protected none id p = refl
records_stay now protected (some entries) id p =
    keep-keep _ (λ e. e.held || not (judge now protected e).drop_record) entries
      (λ e n.
        rw (judge-protected now protected e id (is_named-some now id (id_of e.name) n) p).1
          (or_true e.held))

staged_stay :
    (now : ℤ) (protected : Str → Bool) (plans : List (Entry UpdatePlan))
    (o : Option (List (Entry (Unit {0})))) (id : Str)
    → protected id ≡ true
    → keep (λ e. e.name == id) (listing (swept_staging now protected plans o))
      ≡ keep (λ e. e.name == id) (listing o)
unfolding swept_staging
staged_stay now protected plans none id p = refl
staged_stay now protected plans (some entries) id p =
    keep-keep _ (λ e. e.held || not (staged_goes now protected plans e.name)) entries
      (λ e n.
        rw
          (staged_goes-protected now protected plans e.name
            (ap protected (eq_of_== e.name id n) ∙ p))
          (or_true e.held))

-- If a session whose record can be read is live, a sweep keeps every plan record and every
-- staging entry with an id that the session has as its plan or as the place of its staged files.
pub sweep-spares :
    (now : ℤ) (disk : Disk) (sess : Session) (id : Str)
    → IsLive now disk sess
    → protects disk.data_dir id sess ≡ true
    → (records_of id (sweep now disk) ≡ records_of id disk)
      × (staged_of id (sweep now disk) ≡ staged_of id disk)
unfolding sweep
sweep-spares now disk sess id l p =
    let saved = protected_by-live now disk sess id l p in
    (
      records_stay now (protected_by now disk) disk.plans id saved,
      staged_stay now (protected_by now disk) (listing disk.plans) disk.staging id saved,
    )
