-- ===== src/Inprocess/Offers.antt =====
-- What a check of the index offers, and what it may call up to date.
use relkit.Prelude.{
  ◌≡◌, refl, sym, subst, ℤ, pos, true, ◌&&◌, Bool-cases, inl, inr, ◌⊎◌, Option, none, some,
  Option-cases, Str, ◌==◌, eq_iff, arith,
}
use relkit.Prelude.Results.{Result, ok, err}
use relkit.Rup.{Index}
use relkit.Wire.{Envelope}
use relkit.Envelope.{open_envelope, OpenError}
use relkit.Envelope.Trust.{IsTrusted, open_envelope-IsTrusted}
use relkit.Sdk.State.{UpdateState, accepts_sequence, record_source_success, observe_sequence}
use relkit.Sdk.State.Marks.{AtLeast, AtLeast-trans, accepts-AtLeast}
use relkit.Inprocess.{update, pure, ◌>>=◌, ◌>>◌, older, Updater, Reason}
use relkit.Inprocess.Sources.{Candidate}
use relkit.Inprocess.Check.{judge_index, note_failure, open_candidate}
use relkit.Inprocess.Triples.{
  Marks-Upward, Triple, Upward, Marks, Marks-refl, Marks-trans, triple_bind, triple_pure,
  triple_result, triple_remembered, triple_get_fresh, triple_update, weaken, failure-Marks,
  success-Marks, observe-Marks, observe-AtLeast,
}

-- An index for this product and channel, signed by a trusted key, and not older than the mark.
pub record IsOpened (u : Updater) (mark : Option ℤ) (index : Index) : Type 0 where
  pub env : Envelope
  pub trusted : IsTrusted u.wire u.trusted_keys env
  pub read : u.wire.unmarshal_index env.payload ≡ some index
  pub product : index.product ≡ u.product
  pub channel : index.channel ≡ u.channel
  pub fresh : AtLeast (some index.sequence) mark

err_ne_ok : {x : Index} {e : Reason} → err e ≡ ok x → ⊥
err_ne_ok q = cc

accepted :
    (u : Updater) (mark : Option ℤ) (env : Envelope) (doc : Index) {index : Index}
    → open_envelope u.wire (some env) u.trusted_keys ≡ ok doc
    → (doc.product ≡ u.product) × (doc.channel ≡ u.channel)
    → accepts_sequence doc.sequence mark ≡ true
    → ◌≡◌ {A = Result Reason Index} (ok doc) (ok index)
    → IsOpened u mark index
accepted u mark env doc {index} o (p, c) f q =
    let same : doc ≡ index = cc in
    let (t, r, _) = open_envelope-IsTrusted u.wire env u.trusted_keys o in
    subst (IsOpened u mark) same (record {
      env = env;
      trusted = t;
      read = r;
      product = p;
      channel = c;
      fresh = accepts-AtLeast mark doc.sequence f;
    })

Result-cases :
    (r : Result OpenError Index) → ((e : OpenError) × (r ≡ err e)) ⊎ ((x : Index) × (r ≡ ok x))
Result-cases (err e) = inl (e, refl)
Result-cases (ok x) = inr (x, refl)

pub judge-IsOpened :
    (u : Updater) (mark : Option ℤ) (o : Option Str) {index : Index}
    → judge_index u mark o ≡ ok index
    → IsOpened u mark index
unfolding judge_index
judge-IsOpened u mark none e = absurd (err_ne_ok e)
judge-IsOpened u mark (some body) e = elim (Option-cases (u.wire.unmarshal_envelope body)) [
  | inl n ↦ absurd (err_ne_ok (rw (n, judge_index) at e))
  | inr (env, n) ↦ elim (Result-cases (open_envelope u.wire (some env) u.trusted_keys)) [
    | inl (x, o) ↦ absurd (err_ne_ok (rw (n, judge_index, o) at e))
    | inr (doc, o) ↦ elim (Bool-cases ((doc.product == u.product) && (doc.channel == u.channel))) [
      | inr s ↦ absurd (err_ne_ok (rw (n, judge_index, o, s) at e))
      | inl s ↦ elim (Bool-cases (accepts_sequence doc.sequence mark)) [
        | inr f ↦ absurd (err_ne_ok (rw (n, judge_index, o, s, f) at e))
        | inl f ↦
            accepted u mark env doc o
              (
                ground (arith, eq_iff doc.product u.product),
                ground (arith, eq_iff doc.channel u.channel),
              )
              f (rw (n, judge_index, o, s, f) at e)
      ]
    ]
  ]
]

IsOpened-older :
    (u : Updater) (old mark : Option ℤ) (index : Index)
    → AtLeast mark old
    → IsOpened u mark index
    → IsOpened u old index
IsOpened-older u old mark index h o = record {
  env = o.env;
  trusted = o.trusted;
  read = o.read;
  product = o.product;
  channel = o.channel;
  fresh = AtLeast-trans (some index.sequence) mark old o.fresh h;
}

note-Marks :
    (r : Reason) (key : Str) (now : ℤ) (s : UpdateState) → Marks s (note_failure r key now s)
unfolding note_failure
note-Marks r key now s = elim r as (λ k. Marks s (note_failure k key now s)) [
  | older ↦ Marks-refl s
  | _ ↦ failure-Marks key now s
]

-- The state has seen the sequence `n`, since `start`.
abbrev pub Seen : UpdateState → ℤ → UpdateState → Type 0
Seen start n s = Marks start s × AtLeast s.last_seen_sequence (some n)

pub Seen-Upward : (start : UpdateState) (n : ℤ) → Upward (Seen start n)
Seen-Upward start n s t m (h, k) = (
  Marks-trans start s t h m,
  AtLeast-trans t.last_seen_sequence s.last_seen_sequence (some n) m.index k,
)

-- What `open_candidate` promises.
abbrev pub Opened : Updater → UpdateState → Result Reason Index → UpdateState → Type 0
Opened u start (err e) s = Marks start s
Opened u start (ok index) s =
    IsOpened u start.last_seen_sequence index
    × Marks start s
    × AtLeast s.last_seen_sequence (some index.sequence)

note-Opened :
    (u : Updater) (start : UpdateState) (key : Str) (index : Index)
    → Triple
        (λ s. IsOpened u start.last_seen_sequence index × Marks start s)
        (update u.net (record_source_success key (pos 0))
          >> update u.net (λ _. observe_sequence index.sequence)
          >> pure (ok index))
        (Opened u start)
unfolding ◌>>=◌ update pure
note-Opened u start key index = record {
  runs = λ w p. (
    p.0,
    Marks-trans start w.memory _ p.1 (
        Marks-trans w.memory _ _ (success-Marks key (pos 0) _ w.memory)
          (observe-Marks index.sequence _)),
    observe-AtLeast index.sequence _,
  );
}

pub open-Opened :
    (u : Updater) (start : UpdateState) (c : Candidate)
    → Triple (Marks start) (open_candidate u c) (Opened u start)
unfolding open_candidate
open-Opened u start c = triple_bind (triple_get_fresh u.net c.url) (λ body.
    triple_bind triple_remembered (λ st.
      triple_result (judge_index u st.last_seen_sequence body)
        (λ e _.
          weaken (λ s p. p.0)
            (triple_bind
              (triple_update {pre = Marks start} u.net (note_failure e c.preference_key)
                (Marks-Upward start) (note-Marks e c.preference_key))
              (λ _. triple_pure (err e) (λ s p. p))))
        (λ index j.
          weaken
            (λ t p. (
              IsOpened-older u start.last_seen_sequence st.last_seen_sequence index
                  (subst
                    (λ (v : UpdateState). AtLeast v.last_seen_sequence start.last_seen_sequence)
                    (sym p.1) p.0.index)
                  (judge-IsOpened u st.last_seen_sequence body j),
              p.0,
            ))
            (note-Opened u start c.preference_key index))))
