-- ===== src/Inprocess/Notices.antt =====
-- The notice that `CheckFallback` gives.
use relkit.Prelude.{
  ◌≡◌, refl, sym, ap, subst, ℤ, ◌≤ℤ◌, true, Bool-cases, inl, inr, ◌⊎◌, Option, none, some,
  Option-cases, List, [], ◌∷◌, Str, ◌==◌, eq_iff, arith, is_empty, In, here, there,
}
use relkit.Prelude.Results.{Result, ok, err}
use relkit.Rup.{Fallback, FallbackRule, selectors_to_map}
use relkit.Wire.{Envelope}
use relkit.Envelope.{open_fallback_envelope, OpenError}
use relkit.Envelope.Trust.{IsTrusted, open_fallback-IsTrusted}
use relkit.Selectors.{matches_client_apply}
use relkit.Sdk.State.{UpdateState, accepts_sequence, observe_fallback_sequence}
use relkit.Sdk.State.Marks.{AtLeast, AtLeast-trans, accepts-AtLeast}
use relkit.Inprocess.{Updater, Attempt, Reason, FallbackRequired}
use relkit.Inprocess.Target.{preferences}
use relkit.Inprocess.Notice.{
  rule_applies, match_fallback_rule, judge_fallback, notice_of, answer_of, try_fallbacks,
  or_configured, check_fallback,
}
use relkit.Inprocess.Triples.{
  Triple, Marks, Marks-Upward, triple_bind, triple_pure, triple_result, triple_remembered,
  triple_get_fresh, triple_update, weaken, observe_fallback-Marks,
}
use relkit.Inprocess.Kept.{resolve_index_plan-keeps}

-- A notice of a signed document of this product that is not older than the mark, from a rule that
-- covers this client.
pub record IsNotice (u : Updater) (mark : Option ℤ) (n : FallbackRequired) : Type 0 where
  pub doc : Fallback
  pub env : Envelope
  pub trusted : IsTrusted u.wire u.trusted_keys env
  pub read : u.wire.unmarshal_fallback env.payload ≡ some doc
  pub product : doc.product ≡ u.product
  pub fresh : AtLeast (some doc.sequence) mark
  pub rule : FallbackRule
  pub listed : In (some rule) doc.rules
  pub from_code : rule.min_code ≤ℤ u.current_code
  pub to_code : u.current_code ≤ℤ rule.max_code
  pub selected :
      matches_client_apply (selectors_to_map rule.selectors) u.client_selectors (preferences u)
      ≡ true
  pub copied : n ≡ notice_of doc rule

-- A rule of the list that applies.
abbrev Applies : Updater → List (Option FallbackRule) → FallbackRule → Type 0
Applies u rules rule = In (some rule) rules × (rule_applies u rule ≡ true)

match-Applies :
    (u : Updater) (rules : List (Option FallbackRule)) {rule : FallbackRule}
    → match_fallback_rule u rules ≡ some rule
    → Applies u rules rule
unfolding match_fallback_rule
match-Applies u [] e = cc
match-Applies u (none ∷ rules) e = let (i, a) = match-Applies u rules e in (there i, a)
match-Applies u (some r ∷ rules) {rule} e = elim (Bool-cases (rule_applies u r)) [
  | inl a ↦
      let same : r ≡ rule = some_eq (rw a at e) in
      (here (ap some (sym same)), subst (λ z. rule_applies u z ≡ true) same a)
  | inr n ↦ let (i, a) = match-Applies u rules (rw n at e) in (there i, a)
]
  where
    some_eq : {x y : FallbackRule} → some x ≡ some y → x ≡ y
    some_eq q = cc

-- A document that may be listened to.
record IsHeard (u : Updater) (mark : Option ℤ) (doc : Fallback) : Type 0 where
  env : Envelope
  trusted : IsTrusted u.wire u.trusted_keys env
  read : u.wire.unmarshal_fallback env.payload ≡ some doc
  product : doc.product ≡ u.product
  fresh : AtLeast (some doc.sequence) mark

err_ne_ok : {x : Fallback} {e : Reason} → err e ≡ ok x → ⊥
err_ne_ok q = cc

heard :
    (u : Updater) (mark : Option ℤ) (env : Envelope) (read : Fallback) {doc : Fallback}
    → open_fallback_envelope u.wire (some env) u.trusted_keys ≡ ok read
    → read.product ≡ u.product
    → accepts_sequence read.sequence mark ≡ true
    → ◌≡◌ {A = Result Reason Fallback} (ok read) (ok doc)
    → IsHeard u mark doc
heard u mark env read {doc} o p f q =
    let same : read ≡ doc = cc in
    let (t, r) = open_fallback-IsTrusted u.wire env u.trusted_keys o in
    subst (IsHeard u mark) same (record {
      env = env;
      trusted = t;
      read = r;
      product = p;
      fresh = accepts-AtLeast mark read.sequence f;
    })

Result-cases :
    (r : Result OpenError Fallback)
    → ((e : OpenError) × (r ≡ err e)) ⊎ ((x : Fallback) × (r ≡ ok x))
Result-cases (err e) = inl (e, refl)
Result-cases (ok x) = inr (x, refl)

judge-IsHeard :
    (u : Updater) (mark : Option ℤ) (o : Option Str) {doc : Fallback}
    → judge_fallback u mark o ≡ ok doc
    → IsHeard u mark doc
unfolding judge_fallback
judge-IsHeard u mark none e = absurd (err_ne_ok e)
judge-IsHeard u mark (some body) e = elim (Option-cases (u.wire.unmarshal_envelope body)) [
  | inl n ↦ absurd (err_ne_ok (rw (n, judge_fallback) at e))
  | inr (env, n) ↦ elim (Result-cases (open_fallback_envelope u.wire (some env) u.trusted_keys)) [
    | inl (x, o) ↦ absurd (err_ne_ok (rw (n, judge_fallback, o) at e))
    | inr (read, o) ↦ elim (Bool-cases (read.product == u.product)) [
      | inr s ↦ absurd (err_ne_ok (rw (n, judge_fallback, o, s) at e))
      | inl s ↦ elim (Bool-cases (accepts_sequence read.sequence mark)) [
        | inr f ↦ absurd (err_ne_ok (rw (n, judge_fallback, o, s, f) at e))
        | inl f ↦
            heard u mark env read o ((eq_iff read.product u.product).0 s) f
              (rw (n, judge_fallback, o, s, f) at e)
      ]
    ]
  ]
]

answer-IsNotice :
    (u : Updater) (old mark : Option ℤ) (doc : Fallback) {n : FallbackRequired}
    → AtLeast mark old
    → IsHeard u mark doc
    → answer_of u doc ≡ some n
    → IsNotice u old n
unfolding answer_of
answer-IsNotice u old mark doc {n} m h e = elim (Option-cases (match_fallback_rule u doc.rules)) [
  | inl q ↦ absurd (none_ne (rw (q, answer_of) at e))
  | inr (rule, q) ↦
      let (i, a) = match-Applies u doc.rules q in
      let same : notice_of doc rule ≡ n = some_eq (rw (q, answer_of) at e) in
      record {
        doc = doc;
        env = h.env;
        trusted = h.trusted;
        read = h.read;
        product = h.product;
        fresh = AtLeast-trans (some doc.sequence) mark old h.fresh m;
        rule = rule;
        listed = i;
        from_code = unfold rule_applies in (ground arith);
        to_code = unfold rule_applies in (ground arith);
        selected = unfold rule_applies in (ground arith);
        copied = sym same;
      }
]
  where
    none_ne : none ≡ some n → ⊥
    none_ne q = cc

    some_eq : {x y : FallbackRequired} → some x ≡ some y → x ≡ y
    some_eq q = cc

-- What `check_fallback` promises of its answer.
pub record Notified (u : Updater) (start : UpdateState) (r : Option FallbackRequired × List Attempt)
    (s : UpdateState) : Type 0 where
  pub marks : Marks start s
  pub notice :
      (n : FallbackRequired) → r.0 ≡ some n → IsNotice u start.last_seen_fallback_sequence n

quiet :
    (u : Updater) (start : UpdateState) (attempts : List Attempt) (s : UpdateState)
    → Marks start s
    → Notified u start (none, attempts) s
quiet u start attempts s m = record { marks = m; notice = λ n e. absurd (none_ne e) }
  where
    none_ne : {n : FallbackRequired} → none ≡ some n → ⊥
    none_ne q = cc

fallbacks-Notified :
    (u : Updater) (start : UpdateState) (urls : List Str) (attempts : List Attempt)
    → Triple (Marks start) (try_fallbacks u urls attempts) (Notified u start)
unfolding try_fallbacks
fallbacks-Notified u start [] attempts = triple_pure _ (λ s m. quiet u start attempts s m)
fallbacks-Notified u start (url ∷ urls) attempts = triple_bind (triple_get_fresh u.net url) (λ body.
    triple_bind triple_remembered (λ st.
      triple_result (judge_fallback u st.last_seen_fallback_sequence body)
        (λ e _. weaken (λ s p. p.0) (fallbacks-Notified u start urls _))
        (λ doc j. record {
          runs = λ w p.
              let known =
                subst
                  (λ (v : UpdateState).
                    AtLeast v.last_seen_fallback_sequence start.last_seen_fallback_sequence)
                  (sym p.1) p.0.fallback in
              (triple_bind {post = Notified u start}
                  (triple_update {pre = Marks start} u.net
                    (λ _. observe_fallback_sequence doc.sequence) (Marks-Upward start)
                    (λ _. observe_fallback-Marks doc.sequence))
                  (λ _.
                    triple_pure (answer_of u doc, attempts)
                      (λ s m.
                        told s m known
                          (judge-IsHeard u st.last_seen_fallback_sequence body j)))).runs
                w p.0;
        })))
  where
    told :
        {doc : Fallback} {mark : Option ℤ} (s : UpdateState)
        → Marks start s
        → AtLeast mark start.last_seen_fallback_sequence
        → IsHeard u mark doc
        → Notified u start (answer_of u doc, attempts) s
    told {doc} {mark} s m known h = record {
      marks = m;
      notice = λ n e. answer-IsNotice u start.last_seen_fallback_sequence mark doc known h e;
    }

pub check_fallback-Notified :
    (u : Updater) (start : UpdateState) → Triple (Marks start) (check_fallback u) (Notified u start)
unfolding check_fallback
check_fallback-Notified u start =
    triple_bind (resolve_index_plan-keeps (Marks start) (Marks-Upward start) u) (λ plan.
      elim (Bool-cases (is_empty (or_configured u plan.1))) [
        | inl e ↦ rw e (triple_pure _ (λ s m. quiet u start plan.2 s m))
        | inr e ↦ rw e (elim (Bool-cases (u.product == [])) [
          | inl p ↦ rw p (triple_pure _ (λ s m. quiet u start _ s m))
          | inr p ↦ rw p (elim (Bool-cases (is_empty u.trusted_keys)) [
            | inl k ↦ rw k (triple_pure _ (λ s m. quiet u start _ s m))
            | inr k ↦ rw k (
                triple_bind triple_remembered
                  (λ st. weaken (λ s m. m.0) (fallbacks-Notified u start _ plan.2)))
          ])
        ])
      ])
