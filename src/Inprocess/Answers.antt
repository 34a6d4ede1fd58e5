-- ===== src/Inprocess/Answers.antt =====
-- What `checkIndex` answers: the offers that it makes, and when it says that all is up to date.
use relkit.Prelude.{
  false≢true, ◌≡◌, refl, sym, ◌∙◌, ap, subst, ℤ, suc, pos, true, false, not, ◌&&◌, Bool-cases, inl,
  inr, ◌⊎◌, none, some, Option-cases, List, [], ◌∷◌, Str, length, arith, is_empty,
}
use relkit.Prelude.Results.{Result, ok, err}
use relkit.Rup.{Index, VersionNode, Manifest, Artifact}
use relkit.Chain.{resolve_upgrade_path, is_mandatory, select_next_target}
use relkit.Chain.Select.{Hop, select-Hop}
use relkit.Chain.Path.{resolve-none, resolve-some}
use relkit.Sdk.State.{UpdateState, is_skipped}
use relkit.Sdk.State.Marks.{AtLeast}
use relkit.Inprocess.{target_failed, Updater, Attempt, Reason, CheckResult, UpdateAvailable, M}
use relkit.Inprocess.Sources.{Candidate}
use relkit.Inprocess.Check.{
  offered, settled, failed, offer_target, offer_next, check_candidates, refusal, no_candidates,
  no_source, with_plan, check_index,
}
use relkit.Inprocess.Triples.{
  Triple, Marks, triple_bind, triple_pure, triple_result, triple_option, triple_remembered, weaken,
  Marks-Upward,
}
use relkit.Inprocess.Kept.{IsTarget, TargetFound, fetch-TargetFound, resolve_index_plan-keeps}
use relkit.Inprocess.Offers.{IsOpened, Seen, Seen-Upward, Opened, open-Opened}

-- An update that a check may offer to a client that remembers `start`.
pub record IsOffer (u : Updater) (start : UpdateState) (a : UpdateAvailable) : Type 0 where
  pub index : Index
  pub opened : IsOpened u start.last_seen_sequence index
  pub hop : Hop index u.current_code a.target
  pub rest : List VersionNode
  pub path : resolve_upgrade_path index u.current_code ≡ a.target ∷ rest
  pub hops : a.remaining_hops ≡ suc (length rest)
  pub wanted : (is_mandatory index u.current_code ≡ true) ⊎ (is_skipped a.target.code start ≡ false)
  pub mandatory : a.mandatory ≡ is_mandatory index u.current_code
  pub sequence : a.sequence ≡ index.sequence
  pub found : IsTarget u index a.target a.manifest a.artifact

-- An index that has nothing for the client: no path, or a next version that the user skipped and
-- need not take.
pub record IsCurrent (u : Updater) (start : UpdateState) (index : Index) : Type 0 where
  pub opened : IsOpened u start.last_seen_sequence index
  pub nothing :
      (resolve_upgrade_path index u.current_code ≡ [])
      ⊎ ((target : VersionNode) × (rest : List VersionNode) × (resolve_upgrade_path index
              u.current_code
            ≡ target ∷ rest)
          × (is_mandatory index u.current_code ≡ false)
          × (is_skipped target.code start ≡ true))

pub record IsAnswer (u : Updater) (start : UpdateState) (r : CheckResult) (s : UpdateState)
    : Type 0 where
  pub marks : Marks start s
  pub offer :
      (a : UpdateAvailable)
      → r.available ≡ some a
      → IsOffer u start a × AtLeast s.last_seen_sequence (some a.sequence)
  pub current :
      r.up_to_date ≡ true
      → (index : Index) × IsCurrent u start index × (r.sequence ≡ index.sequence)
  pub silent : r.fallback ≡ none

-- The first node of a path is a legal hop.
pub path-Hop :
    (index : Index) (c : ℤ) {t : VersionNode} {rest : List VersionNode}
    → resolve_upgrade_path index c ≡ t ∷ rest
    → Hop index c t
path-Hop index c {t} {rest} e = elim (Option-cases (select_next_target index c)) [
  | inl n ↦ absurd (let q = resolve-none index c n in nil_ne (sym q ∙ e))
  | inr (v, n) ↦
      let q = resolve-some index c n in
      let same : v ≡ t = head_eq (sym q ∙ e) in subst (Hop index c) same (select-Hop index c n)
]
  where
    nil_ne : {x : VersionNode} {xs : List VersionNode} → [] ≡ x ∷ xs → ⊥
    nil_ne q = cc

    head_eq : {x y : VersionNode} {xs ys : List VersionNode} → x ∷ xs ≡ y ∷ ys → x ≡ y
    head_eq q = cc

same_skips : (s t : UpdateState) (c : ℤ) → Marks s t → is_skipped c t ≡ is_skipped c s
unfolding is_skipped
same_skips s t c m = rw m.skips

plain-IsAnswer :
    (u : Updater) (start : UpdateState) (message : Str) (n : ℤ) (attempts : List Attempt)
    (s : UpdateState)
    → Marks start s
    → IsAnswer u start (failed message n attempts) s
unfolding failed
plain-IsAnswer u start message n attempts s m = record {
  marks = m;
  offer = λ a e. absurd (none_ne e);
  current = λ e. absurd (false≢true e);
  silent = refl;
}
  where
    none_ne : {a : UpdateAvailable} → none ≡ some a → ⊥
    none_ne q = cc

settled-IsAnswer :
    (u : Updater) (start : UpdateState) (index : Index) (attempts : List Attempt) (s : UpdateState)
    → Marks start s
    → IsCurrent u start index
    → IsAnswer u start (settled u index attempts) s
unfolding settled
settled-IsAnswer u start index attempts s m c = record {
  marks = m;
  offer = λ a e. absurd (none_ne e);
  current = λ _. (index, c, refl);
  silent = refl;
}
  where
    none_ne : {a : UpdateAvailable} → none ≡ some a → ⊥
    none_ne q = cc

offered-IsAnswer :
    (u : Updater) (start : UpdateState) (index : Index) (target : VersionNode)
    (rest : List VersionNode) (m : Manifest) (a : Artifact) (attempts : List Attempt)
    (s : UpdateState)
    → Seen start index.sequence s
    → IsOpened u start.last_seen_sequence index
    → resolve_upgrade_path index u.current_code ≡ target ∷ rest
    → (is_mandatory index u.current_code ≡ true) ⊎ (is_skipped target.code start ≡ false)
    → IsTarget u index target m a
    → IsAnswer u start
        (offered u index target m a
          (is_mandatory index u.current_code)
          (suc (length rest))
          attempts)
        s
unfolding offered
offered-IsAnswer u start index target rest m a attempts s seen o p wanted found = record {
  marks = seen.0;
  offer = λ b e.
      subst
        (λ (z : UpdateAvailable).
          IsOffer u start z × AtLeast s.last_seen_sequence (some z.sequence))
        (some_eq e)
        (
          record {
            index = index;
            opened = o;
            hop = path-Hop index u.current_code p;
            rest = rest;
            path = p;
            hops = refl;
            wanted = wanted;
            mandatory = refl;
            sequence = refl;
            found = found;
          },
          seen.1,
        );
  current = λ e. absurd (false≢true e);
  silent = refl;
}
  where
    some_eq : {x y : UpdateAvailable} → some x ≡ some y → x ≡ y
    some_eq q = cc

-- An answer, or a reason to try the next candidate.
abbrev Attempted : Updater → UpdateState → Result Reason CheckResult → UpdateState → Type 0
Attempted u start (err e) s = Marks start s
Attempted u start (ok r) s = IsAnswer u start r s

target-Attempted :
    (u : Updater) (start : UpdateState) (index : Index) (attempts : List Attempt)
    (target : VersionNode) (rest : List VersionNode)
    → IsOpened u start.last_seen_sequence index
    → resolve_upgrade_path index u.current_code ≡ target ∷ rest
    → (is_mandatory index u.current_code ≡ true) ⊎ (is_skipped target.code start ≡ false)
    → Triple
        (Seen start index.sequence)
        (offer_target u index target
          (is_mandatory index u.current_code)
          (suc (length rest))
          attempts)
        (Attempted u start)
unfolding offer_target
target-Attempted u start index attempts target rest o p wanted =
    triple_bind
      (fetch-TargetFound (Seen start index.sequence) (Seen-Upward start index.sequence) u index
        target)
      (λ fetched.
        triple_result fetched (λ e _. triple_pure (err (target_failed e)) (λ s seen. seen.0.0))
          (λ found f. triple_pure _ (λ s seen.
            offered-IsAnswer u start index target rest found.0 found.1 attempts s seen.0 o p wanted
              (subst (TargetFound u index target) f seen.1))))

next-Attempted :
    (u : Updater) (start : UpdateState) (index : Index) (attempts : List Attempt)
    (path : List VersionNode)
    → IsOpened u start.last_seen_sequence index
    → resolve_upgrade_path index u.current_code ≡ path
    → Triple (Seen start index.sequence) (offer_next u index attempts path) (Attempted u start)
unfolding offer_next
next-Attempted u start index attempts [] o p =
    triple_pure (ok (settled u index attempts)) (λ s seen.
      settled-IsAnswer u start index attempts s seen.0 (record { opened = o; nothing = inl p }))
next-Attempted u start index attempts (target ∷ rest) o p = triple_bind triple_remembered (λ st.
    elim (Bool-cases (not (is_mandatory index u.current_code) && is_skipped target.code st)) [
      | inl skip ↦ rw skip (
          triple_pure (ok (settled u index attempts)) (λ s seen.
            settled-IsAnswer u start index attempts s seen.0.0 (record {
              opened = o;
              nothing =
                  let same = same_skips start s target.code seen.0.0 in
                  let is_s = seen.1 in
                  let there_too : is_skipped target.code st ≡ is_skipped target.code s =
                    ap (is_skipped target.code) is_s in
                  inr
                    (target, rest, p, ground (arith, skip), ground (arith, skip, same, there_too));
            })))
      | inr keep ↦ rw keep (record {
        runs = λ w seen.
            let same = same_skips start w.memory target.code seen.0.0 in
            let there_too : is_skipped target.code st ≡ is_skipped target.code w.memory =
              ap (is_skipped target.code) seen.1 in
            (target-Attempted u start index attempts target rest o p
                (ground (arith, keep, same, there_too))).runs
              w seen.0;
      })
    ])

candidates-IsAnswer :
    (u : Updater) (start : UpdateState) (l : List Candidate) (attempts : List Attempt)
    → Triple (Marks start) (check_candidates u l attempts) (IsAnswer u start)
unfolding check_candidates
candidates-IsAnswer u start [] attempts =
    triple_pure _ (λ s m. plain-IsAnswer u start (no_source attempts) (pos 0) attempts s m)
candidates-IsAnswer u start (c ∷ l) attempts = triple_bind (open-Opened u start c) (λ opened.
    triple_result opened
      (λ e f. weaken (λ s o. subst (λ r. Opened u start r s) f o) (candidates-IsAnswer u start l _))
      (λ index f. record {
        runs = λ w o.
            let now = subst (λ r. Opened u start r w.memory) f o in
            (triple_bind
                (next-Attempted u start index attempts (resolve_upgrade_path index u.current_code)
                  now.0 refl)
                (λ answer.
                  triple_result answer
                    (λ e g.
                      weaken (λ s h. subst (λ r. Attempted u start r s) g h)
                        (candidates-IsAnswer u start l _))
                    (λ r g. triple_pure r (λ s h. subst (λ r. Attempted u start r s) g h)))).runs
              w (now.1, now.2);
      }))

with_plan-IsAnswer :
    (u : Updater) (start : UpdateState) (loop : List Candidate → List Attempt → M CheckResult)
    → ((l : List Candidate) (attempts : List Attempt)
        → Triple (Marks start) (loop l attempts) (IsAnswer u start))
    → Triple (Marks start) (with_plan u loop) (IsAnswer u start)
unfolding with_plan
with_plan-IsAnswer u start loop h =
    triple_option (refusal u)
      (λ _. triple_bind (resolve_index_plan-keeps (Marks start) (Marks-Upward start) u) (λ plan.
        elim (Bool-cases (is_empty plan.0)) [
          | inl e ↦ rw e (
              triple_pure (no_candidates plan.2)
                (λ s m. unfold no_candidates in plain-IsAnswer u start _ (pos 0) plan.2 s m))
          | inr e ↦ rw e (h plan.0 plan.2)
        ]))
      (λ message _. triple_pure _ (λ s m. plain-IsAnswer u start message (pos 0) [] s m))

pub check_index-IsAnswer :
    (u : Updater) (start : UpdateState) → Triple (Marks start) (check_index u) (IsAnswer u start)
unfolding check_index
check_index-IsAnswer u start =
    with_plan-IsAnswer u start (check_candidates u) (candidates-IsAnswer u start)
