-- ===== src/Inprocess/Exact.antt =====
-- What `FetchExact` returns.
use relkit.Prelude.{
  ◌≡◌, refl, sym, ap, subst, ℤ, pos, eqb_ℤ, eqb_ℤ_iff, Bool, true, false, Bool-cases, inl, inr,
  Option, none, some, List, [], ◌∷◌, Str, is_empty, In, here, there,
}
use relkit.Prelude.Results.{Result, ok, err}
use relkit.Rup.{Index, VersionNode, Manifest, Artifact}
use relkit.Sdk.State.{UpdateState}
use relkit.Inprocess.{World, Updater, Attempt, Reason, CheckResult, UpdateAvailable, target_failed}
use relkit.Inprocess.Sources.{Candidate}
use relkit.Inprocess.Check.{
  offer_kept, offered, failed, offer_target, find_code, offer_exact, exact_candidates, refusal,
  no_candidates, with_plan, fetch_exact,
}
use relkit.Inprocess.Triples.{
  Triple, Marks, Marks-refl, Marks-Upward, triple_bind, triple_pure, triple_result, triple_option,
  weaken,
}
use relkit.Inprocess.Kept.{IsTarget, TargetFound, fetch-TargetFound, resolve_index_plan-keeps}
use relkit.Inprocess.Offers.{IsOpened, Seen, Seen-Upward, Opened, open-Opened}

-- The version with this code, from an index that may be trusted.
pub record IsExact (u : Updater) (start : UpdateState) (code : ℤ) (a : UpdateAvailable)
    : Type 0 where
  pub index : Index
  pub opened : IsOpened u start.last_seen_sequence index
  pub listed : In (some a.target) index.versions
  pub exact : a.target.code ≡ code
  pub kept : a.target.yanked ≡ false
  pub sequence : a.sequence ≡ index.sequence
  pub found : IsTarget u index a.target a.manifest a.artifact

record Fetched (u : Updater) (start : UpdateState) (code : ℤ) (r : CheckResult) (s : UpdateState)
    : Type 0 where
  marks : Marks start s
  exact : (a : UpdateAvailable) → r.available ≡ some a → IsExact u start code a

no_offer : {a : UpdateAvailable} → none ≡ some a → ⊥
no_offer q = cc

node_eq : {x y : VersionNode} → some x ≡ some y → x ≡ y
node_eq q = cc

offer_eq : {x y : UpdateAvailable} → some x ≡ some y → x ≡ y
offer_eq q = cc

find-In :
    (code : ℤ) (l : List (Option VersionNode)) {t : VersionNode}
    → find_code code l ≡ some t
    → In (some t) l × (t.code ≡ code)
unfolding find_code
find-In code [] e = cc
find-In code (none ∷ l) e = let (i, c) = find-In code l e in (there i, c)
find-In code (some v ∷ l) {t} e = elim (Bool-cases (eqb_ℤ v.code code)) [
  | inl c ↦
      let same : v ≡ t = node_eq (rw c at e) in
      (
        here (ap some (sym same)),
        subst (λ (z : VersionNode). z.code ≡ code) same ((eqb_ℤ_iff v.code code).0 c),
      )
  | inr n ↦ let (i, c) = find-In code l (rw n at e) in (there i, c)
]

failed-Fetched :
    (u : Updater) (start : UpdateState) (code : ℤ) (message : Str) (n : ℤ) (attempts : List Attempt)
    (s : UpdateState)
    → Marks start s
    → Fetched u start code (failed message n attempts) s
unfolding failed
failed-Fetched u start code message n attempts s m = record {
  marks = m;
  exact = λ a e. absurd (no_offer e);
}

offered-Fetched :
    (u : Updater) (start : UpdateState) (index : Index) (target : VersionNode) (m : Manifest)
    (a : Artifact) (attempts : List Attempt) (s : UpdateState)
    → Marks start s
    → IsOpened u start.last_seen_sequence index
    → In (some target) index.versions
    → target.yanked ≡ false
    → IsTarget u index target m a
    → Fetched u start target.code (offered u index target m a false 1 attempts) s
unfolding offered
offered-Fetched u start index target m a attempts s marks o i y found = record {
  marks = marks;
  exact = λ b e. subst (IsExact u start target.code) (offer_eq e) (record {
    index = index;
    opened = o;
    listed = i;
    exact = refl;
    kept = y;
    sequence = refl;
    found = found;
  });
}

-- A result, or a reason to try the next candidate.
abbrev Attempted : Updater → UpdateState → ℤ → Result Reason CheckResult → UpdateState → Type 0
Attempted u start code (err e) s = Marks start s
Attempted u start code (ok r) s = Fetched u start code r s

kept-Attempted :
    (u : Updater) (start : UpdateState) (index : Index) (code : ℤ) (attempts : List Attempt)
    (target : VersionNode) (yanked : Bool)
    → IsOpened u start.last_seen_sequence index
    → find_code code index.versions ≡ some target
    → target.yanked ≡ yanked
    → Triple
        (Seen start index.sequence)
        (offer_kept u index code attempts target yanked)
        (Attempted u start code)
unfolding offer_kept offer_target
kept-Attempted u start index code attempts target true h e y =
    triple_pure _ (λ s seen. failed-Fetched u start code _ index.sequence attempts s seen.0)
kept-Attempted u start index code attempts target false h e y =
    triple_bind
      (fetch-TargetFound (Seen start index.sequence) (Seen-Upward start index.sequence) u index
        target)
      (λ fetched.
        triple_result fetched (λ x _. triple_pure (err (target_failed x)) (λ s seen. seen.0.0))
          (λ found f. triple_pure _ (λ s seen.
            let (i, c) = find-In code index.versions e in
            subst
              (λ n. Fetched u start n (offered u index target found.0 found.1 false 1 attempts) s) c
              (offered-Fetched u start index target found.0 found.1 attempts s seen.0.0 h i y
                (subst (TargetFound u index target) f seen.1)))))

exact-Attempted :
    (u : Updater) (start : UpdateState) (index : Index) (code : ℤ) (attempts : List Attempt)
    (o : Option VersionNode)
    → IsOpened u start.last_seen_sequence index
    → find_code code index.versions ≡ o
    → Triple
        (Seen start index.sequence)
        (offer_exact u index code attempts o)
        (Attempted u start code)
unfolding offer_exact
exact-Attempted u start index code attempts none h e =
    triple_pure _ (λ s seen. failed-Fetched u start code _ index.sequence attempts s seen.0)
exact-Attempted u start index code attempts (some target) h e =
    kept-Attempted u start index code attempts target target.yanked h e refl

candidates-Fetched :
    (u : Updater) (start : UpdateState) (code : ℤ) (l : List Candidate) (attempts : List Attempt)
    → Triple (Marks start) (exact_candidates u code l attempts) (Fetched u start code)
unfolding exact_candidates
candidates-Fetched u start code [] attempts =
    triple_pure _ (λ s m. failed-Fetched u start code _ (pos 0) attempts s m)
candidates-Fetched u start code (c ∷ l) attempts = triple_bind (open-Opened u start c) (λ opened.
    triple_result opened
      (λ e f.
        weaken (λ s o. subst (λ r. Opened u start r s) f o) (candidates-Fetched u start code l _))
      (λ index f. record {
        runs = λ w o.
            let now = subst (λ r. Opened u start r w.memory) f o in
            (triple_bind
                (exact-Attempted u start index code attempts (find_code code index.versions) now.0
                  refl)
                (λ answer.
                  triple_result answer
                    (λ e g.
                      weaken (λ s h. subst (λ r. Attempted u start code r s) g h)
                        (candidates-Fetched u start code l _))
                    (λ r g.
                      triple_pure r (λ s h. subst (λ r. Attempted u start code r s) g h)))).runs
              w (now.1, now.2);
      }))

fetch-Fetched :
    (u : Updater) (start : UpdateState) (code : ℤ)
    → Triple (Marks start) (fetch_exact u code) (Fetched u start code)
unfolding fetch_exact with_plan no_candidates
fetch-Fetched u start code =
    triple_option (refusal u)
      (λ _. triple_bind (resolve_index_plan-keeps (Marks start) (Marks-Upward start) u) (λ plan.
        elim (Bool-cases (is_empty plan.0)) [
          | inl e ↦ rw e (triple_pure _ (λ s m. failed-Fetched u start code _ (pos 0) plan.2 s m))
          | inr e ↦ rw e (candidates-Fetched u start code plan.0 plan.2)
        ]))
      (λ message _. triple_pure _ (λ s m. failed-Fetched u start code message (pos 0) [] s m))

-- If `FetchExact` returns a version for a code, it is a version with this code that is listed in
-- an index for the client's product and channel, signed by a trusted key and not older than the
-- last sequence seen, it is not yanked, and its manifest and artifact are genuine in the same way
-- as those of a check.
pub fetch_exact-IsExact :
    (u : Updater) (code : ℤ) (w : World) (a : UpdateAvailable)
    → (fetch_exact u code w).0.available ≡ some a
    → IsExact u w.memory code a
fetch_exact-IsExact u code w a e =
    ((fetch-Fetched u w.memory code).runs w (Marks-refl w.memory)).exact a e

pub fetch_exact-Marks :
    (u : Updater) (code : ℤ) (w : World) → Marks w.memory (fetch_exact u code w).1.memory
fetch_exact-Marks u code w = ((fetch-Fetched u w.memory code).runs w (Marks-refl w.memory)).marks
