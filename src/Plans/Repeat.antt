-- ===== src/Plans/Repeat.antt =====
-- A check that is repeated while its plan lives gets a plan that is stored already.
use mathlib.Core.List.{reverse-append, reverse-reverse}
use relkit.Prelude.{
  subst, eqb_ℤ_iff, Bool, true, false, ◌&&◌, Option, none, some, List, [], ◌∷◌, ℤ, ◌+ℤ◌, ◌<ℤ◌, Str,
  str, ◌==◌, ==-refl, eq_of_==, eq_iff, ◌≡◌, inl, inr, refl, sym, ◌∙◌, ap, In, here, there, arith,
  ltb_str, Bool-cases, false≢true, if◌then◌else◌,
}
use relkit.Prelude.Text.{has_suffix, trim_prefix, trim_suffix}
use relkit.Prelude.Sorting.{sort_by, In-sort_by}
use relkit.Inprocess.{UpdateAvailable}
use relkit.Plans.{
  plan_file_ready, to_lower, not, PlannedFile, UpdatePlan, Entry, Disk, plan_ttl, listing, id_of,
  file_of, find_entry, load_plan, same_file, same_plan_files, equal_fold,
}
use relkit.Plans.Filename.{validate_artifact_filename}
use relkit.Plans.Build.{
  Sealing, hmac_plan, verify_plan, read_names, with_id, list_dir, is_current, answers, qualified,
  reusable_plan, refresh_file, refresh_files, refresh_plan, planned_file, fresh_plan, reuse_or,
  sealed, put_entry, save_plan, issued, saved, build_plan,
}
use relkit.Plans.Reuse.{reusable_plan-qualified, reusable_plan-best}

-- `.pb` is cut off the name of a plan's file.
id_of-file_of : (id : Str) → id_of (file_of id) ≡ some id
unfolding id_of has_suffix trim_suffix trim_prefix
id_of-file_of id = rw (reverse-append id (str ".pb")) (ap some (reverse-reverse id))

find-put :
    (name : Str) (plan : UpdatePlan) (entries : List (Entry UpdatePlan))
    → find_entry name (put_entry name plan entries) ≡ some plan
unfolding find_entry put_entry
find-put name plan [] = rw (==-refl name) refl
find-put name plan (e ∷ rest) = elim (Bool-cases (e.name == name)) [
  | inl h ↦ rw (h, h) refl
  | inr h ↦ rw (h, h) (find-put name plan rest)
]

In-with_id : {id : Str} (o : Option Str) (ids : List Str) → In id ids → In id (with_id o ids)
unfolding with_id
In-with_id none ids i = i
In-with_id (some x) ids i = there i

In-read_names-put :
    (id : Str) (plan : UpdatePlan) (entries : List (Entry UpdatePlan))
    → In id (read_names (put_entry (file_of id) plan entries))
unfolding read_names put_entry with_id
In-read_names-put id plan [] = rw (id_of-file_of id) (here refl)
In-read_names-put id plan (e ∷ rest) = elim (Bool-cases (e.name == file_of id)) [
  | inl h ↦ rw (h, eq_of_== e.name (file_of id) h, id_of-file_of id) (here refl)
  | inr h ↦ rw h (In-with_id (id_of e.name) _ (In-read_names-put id plan rest))
]

-- Where there is a record with the name, it is replaced, and the names stay.
read_names-put :
    (name : Str) (plan found : UpdatePlan) (entries : List (Entry UpdatePlan))
    → find_entry name entries ≡ some found
    → read_names (put_entry name plan entries) ≡ read_names entries
unfolding read_names put_entry find_entry
read_names-put name plan found [] e = cc
read_names-put name plan found (x ∷ rest) e = elim (Bool-cases (x.name == name)) [
  | inl h ↦ rw (h, put_entry) refl
  | inr h ↦
      rw (h, put_entry)
        (ap (with_id (id_of x.name))
          (read_names-put name plan found rest (rw (h, find_entry) at e)))
]

same_file_trans :
    (a b c : PlannedFile) → same_file a b ≡ true → same_file b c ≡ true → same_file a c ≡ true
unfolding same_file equal_fold
same_file_trans a b c h k = ground (
  arith,
  eq_iff a.name b.name,
  eq_iff b.name c.name,
  eq_iff a.name c.name,
  eq_iff a.kind b.kind,
  eq_iff b.kind c.kind,
  eq_iff a.kind c.kind,
  eq_iff (to_lower a.sha256_hex) (to_lower b.sha256_hex),
  eq_iff (to_lower b.sha256_hex) (to_lower c.sha256_hex),
  eq_iff (to_lower a.sha256_hex) (to_lower c.sha256_hex),
)

refresh_file-same :
    (disk : Disk) (f fresh g : PlannedFile)
    → same_file (refresh_file disk f fresh) g ≡ same_file f g
unfolding same_file refresh_file
refresh_file-same disk f fresh g =
    elim (Bool-cases (f.downloaded && not (plan_file_ready disk f))) [
      | inl h ↦ rw h refl
      | inr h ↦ rw h refl
    ]

-- The files of a plan for one artifact, refreshed, are still those of the artifact.
refresh_files-same :
    (disk : Disk) (files : List PlannedFile) (one two : PlannedFile)
    → same_plan_files files (one ∷ []) ≡ true
    → same_file one two ≡ true
    → same_plan_files (refresh_files disk files (one ∷ [])) (two ∷ []) ≡ true
unfolding same_plan_files refresh_files
refresh_files-same disk [] one two h k = absurd (false≢true h)
refresh_files-same disk (f ∷ []) one two h k =
    rw (refresh_file-same disk f one two, same_file_trans f one two (same (same_file f one) h) k)
      refl
  where
    same : (b : Bool) → (if b then true else false) ≡ true → b ≡ true
    same true e = refl
    same false e = absurd (false≢true e)
refresh_files-same disk (f ∷ g ∷ files) one two h k = absurd (never (same_file f one) h)
  where
    never : (b : Bool) → (if b then false else false) ≡ true → ⊥
    never true e = false≢true e
    never false e = false≢true e

-- Checks of one product on one channel, on one machine.
module _ (s : Sealing) (key product channel : Str) where
  -- The new check finds the same version and the same bytes as the old one.
  pub record IsSameTarget (old new : UpdateAvailable) : Type 0 where
    pub same_code : new.target.code ≡ old.target.code
    pub same_bytes : same_file (planned_file old.artifact) (planned_file new.artifact) ≡ true

  refreshed-answers :
      (id id2 : Str) (old new : UpdateAvailable) (now later : ℤ) (disk : Disk) (p : UpdatePlan)
      → answers (fresh_plan id product channel old now) p ≡ true
      → IsSameTarget old new
      → answers
          (fresh_plan id2 product channel new later)
          (sealed s key (refresh_plan disk p (fresh_plan id product channel old now)))
        ≡ true
  unfolding answers sealed fresh_plan refresh_plan
  refreshed-answers id id2 old new now later disk p a same = ground (
    arith,
    refresh_files-same disk p.files (planned_file old.artifact) (planned_file new.artifact),
    same.same_bytes,
    same.same_code,
    eqb_ℤ_iff p.code old.target.code,
    eqb_ℤ_iff p.code new.target.code,
  )

  fresh-answers :
      (id id2 : Str) (old new : UpdateAvailable) (now later : ℤ)
      → IsSameTarget old new
      → answers
          (fresh_plan id2 product channel new later)
          (sealed s key (fresh_plan id product channel old now))
        ≡ true
  unfolding answers sealed fresh_plan same_plan_files
  fresh-answers id id2 old new now later same =
      rw (==-refl product, ==-refl channel, same.same_bytes)
        (ground (arith, eqb_ℤ_iff old.target.code new.target.code, same.same_code))

  -- What makes a stored plan reusable, apart from its name and its expiry.
  verify-sealed : (plan : UpdatePlan) → verify_plan s key (sealed s key plan) ≡ true
  unfolding verify_plan sealed hmac_plan
  verify-sealed plan = ==-refl (hmac_plan s key plan)

  qualified-answers :
      (want p : UpdatePlan) (now : ℤ) (id : Str)
      → qualified s key want now id p ≡ true
      → (p.plan_id ≡ id) × (answers want p ≡ true)
  unfolding qualified
  qualified-answers want p now id h = (ground (arith, eq_iff p.plan_id id), ground arith)

  issued-answers :
      (id id2 : Str) (old new : UpdateAvailable) (now later : ℤ) (disk : Disk)
      (o : Option UpdatePlan)
      → ((p : UpdatePlan) → o ≡ some p → answers (fresh_plan id product channel old now) p ≡ true)
      → IsSameTarget old new
      → answers
          (fresh_plan id2 product channel new later)
          (sealed s key (reuse_or disk o (fresh_plan id product channel old now)))
        ≡ true
  unfolding reuse_or
  issued-answers id id2 old new now later disk none h same =
      fresh-answers id id2 old new now later same
  issued-answers id id2 old new now later disk (some p) h same =
      refreshed-answers id id2 old new now later disk p (h p refl) same

  issued-is_current :
      (id : Str) (old : UpdateAvailable) (now later : ℤ) (disk : Disk) (o : Option UpdatePlan)
      → later <ℤ now +ℤ plan_ttl
      → is_current later
          (sealed s key (reuse_or disk o (fresh_plan id product channel old now))).expires_at
        ≡ true
  unfolding is_current sealed reuse_or refresh_plan fresh_plan
  issued-is_current id old now later disk none t = ground arith
  issued-is_current id old now later disk (some p) t = ground arith

  -- The plan that a check issues qualifies for the next one while it lives.
  issued-qualified :
      (id id2 : Str) (old new : UpdateAvailable) (now later : ℤ) (disk : Disk)
      (o : Option UpdatePlan)
      → ((p : UpdatePlan) → o ≡ some p → answers (fresh_plan id product channel old now) p ≡ true)
      → IsSameTarget old new
      → later <ℤ now +ℤ plan_ttl
      → qualified s key
          (fresh_plan id2 product channel new later)
          later
          (sealed s key (reuse_or disk o (fresh_plan id product channel old now))).plan_id
          (sealed s key (reuse_or disk o (fresh_plan id product channel old now)))
        ≡ true
  unfolding qualified
  issued-qualified id id2 old new now later disk o h same t =
      let plan = reuse_or disk o (fresh_plan id product channel old now) in
      rw
        (
          ==-refl (sealed s key plan).plan_id,
          verify-sealed plan,
          issued-is_current id old now later disk o t,
          issued-answers id id2 old new now later disk o h same,
        )
        refl

  -- What is stored under the id of a saved plan.
  load-save :
      (plan : UpdatePlan) (disk : Disk) → load_plan plan.plan_id (save_plan plan disk) ≡ some plan
  unfolding load_plan save_plan
  load-save plan disk = find-put (file_of plan.plan_id) plan (listing disk.plans)

  In-save : (plan : UpdatePlan) (disk : Disk) → In plan.plan_id (list_dir (save_plan plan disk))
  unfolding list_dir save_plan
  In-save plan disk =
      In-sort_by ltb_str _ (In-read_names-put plan.plan_id plan (listing disk.plans))

  list_dir-save :
      (plan found : UpdatePlan) (disk : Disk)
      → load_plan plan.plan_id disk ≡ some found
      → list_dir (save_plan plan disk) ≡ list_dir disk
  unfolding list_dir save_plan load_plan
  list_dir-save plan found disk e =
      ap (sort_by ltb_str) (read_names-put (file_of plan.plan_id) plan found (listing disk.plans) e)

  issued-plan_id :
      (fresh prior : UpdatePlan) (now : ℤ) (disk : Disk)
      → reusable_plan s disk key fresh now ≡ some prior
      → (issued s key fresh now disk).plan_id ≡ prior.plan_id
  unfolding issued sealed reuse_or refresh_plan
  issued-plan_id fresh prior now disk e = rw (e, reuse_or) refl

  -- A second plan for the same target, on the disk that the first one left.
  reissued :
      (id id2 : Str) (old new : UpdateAvailable) (now later : ℤ) (disk : Disk)
      → IsSameTarget old new
      → later <ℤ now +ℤ plan_ttl
      → (first : UpdatePlan) → first ≡ issued s key (fresh_plan id product channel old now) now disk
      → (second : UpdatePlan)
      → second
        ≡ issued s key (fresh_plan id2 product channel new later) later (save_plan first disk)
      → In second.plan_id (list_dir (save_plan first disk))
        × (list_dir (save_plan second (save_plan first disk)) ≡ list_dir (save_plan first disk))
  unfolding issued
  reissued id id2 old new now later disk same t first e second d =
      let fresh = fresh_plan id product channel old now in
      let want = fresh_plan id2 product channel new later in
      let after = save_plan first disk in
      let answered : (p : UpdatePlan)
          → reusable_plan s disk key fresh now ≡ some p
          → answers fresh p ≡ true =
        λ p w.
          let (i, j, l, h) = reusable_plan-qualified s disk key fresh now p w in
          (qualified-answers fresh p now i h).1 in
      let fits : qualified s key want later first.plan_id first ≡ true =
        subst (λ q. qualified s key want later q.plan_id q ≡ true) (sym e)
          (issued-qualified id id2 old new now later disk (reusable_plan s disk key fresh now)
            answered same t) in
      let (prior, w, b) =
        reusable_plan-best s after key want later first.plan_id first (In-save first disk)
          (load-save first disk) fits in
      let (i, j, l, h) = reusable_plan-qualified s after key want later prior w in
      let named : second.plan_id ≡ i =
        ap (λ q. q.plan_id) d
        ∙ issued-plan_id want prior later after w
        ∙ (qualified-answers want prior later i h).0 in
      (
        subst (λ x. In x (list_dir after)) (sym named) j,
        list_dir-save second prior after
            (subst (λ x. load_plan x after ≡ some prior) (sym named) l),
      )

  opened :
      (valid : Bool) (plan result : UpdatePlan) (disk after : Disk)
      → ◌≡◌ {A = Option (UpdatePlan × Disk)}
          (if valid then some (saved plan disk) else none)
          (some (result, after))
      → (result ≡ plan) × (after ≡ save_plan result disk)
  unfolding saved
  opened true plan result disk after e = (sym (ap first_of (some_inj e)), second_of (some_inj e))
    where
      some_inj :
          {x y : UpdatePlan × Disk} → ◌≡◌ {A = Option (UpdatePlan × Disk)} (some x) (some y) → x ≡ y
      some_inj p = cc

      first_of : UpdatePlan × Disk → UpdatePlan
      first_of x = x.0

      second_of :
          ◌≡◌ {A = UpdatePlan × Disk} (plan, save_plan plan disk) (result, after)
          → after ≡ save_plan result disk
      second_of p = sym (ap (λ x. x.1) p) ∙ ap (λ x. save_plan x disk) (ap (λ x. x.0) p)
  opened false plan result disk after e = absurd (none_is_some e)
    where
      none_is_some :
          {x : UpdatePlan × Disk} → ◌≡◌ {A = Option (UpdatePlan × Disk)} none (some x) → ⊥
      none_is_some p = cc

  -- If one `buildPlan` succeeds, and a second one on the disk that it left, within `PlanTTL` and
  -- for the same product, channel, code and artifact bytes, succeeds too, then the second plan
  -- has the id of a plan that was stored already, and the ids of the stored plans stay the same:
  -- a check that is repeated adds no plan.
  pub build_plan-repeated :
      (id id2 : Str) (old new : UpdateAvailable) (now later : ℤ) (disk after last : Disk)
      (first second : UpdatePlan)
      → IsSameTarget old new
      → later <ℤ now +ℤ plan_ttl
      → build_plan s key id product channel old now disk ≡ some (first, after)
      → build_plan s key id2 product channel new later after ≡ some (second, last)
      → In second.plan_id (list_dir after) × (list_dir last ≡ list_dir after)
  unfolding build_plan
  build_plan-repeated id id2 old new now later disk after last first second same t e d =
      let (a, b) = opened (validate_artifact_filename old.artifact.filename) _ first disk after e in
      let (x, y) =
        opened (validate_artifact_filename new.artifact.filename) _ second after last d in
      let (i, l) = reissued id id2 old new now later disk same t first a second (
        subst (λ z. second ≡ issued s key (fresh_plan id2 product channel new later) later z) b
          x) in
      (
        subst (λ z. In second.plan_id (list_dir z)) (sym b) i,
        ap list_dir y ∙ ap (λ z. list_dir (save_plan second z)) b ∙ l ∙ ap list_dir (sym b),
      )
