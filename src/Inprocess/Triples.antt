-- ===== src/Inprocess/Triples.antt =====
-- What a step of a check does to the remembered state: rules to prove it step by step.
use relkit.Prelude.{◌∙◌, ◌≡◌, refl, ℤ, Bool-cases, inl, inr, Option, none, some, Str, ◌==◌, []}
use relkit.Prelude.Results.{Result, ok, err}
use relkit.Sdk.State.{
  UpdateState, record_source_failure, record_source_success, observe_sequence,
  observe_fallback_sequence, observe_directory_sequence,
}
use relkit.Sdk.State.Marks.{AtLeast, AtLeast-refl, AtLeast-trans, raise_mark-AtLeast}
use relkit.Inprocess.{World, M, Net, ◌>>=◌, pure, remembered, update, get_bytes, get_fresh}

-- Where `pre` holds of the state before, `post` holds of the result and the state after.
pub record Triple {ℓ} {A : Type ℓ} (pre : UpdateState → Type 0) (m : M A)
    (post : A → UpdateState → Type 0) : Type 0 where
  pub runs : (w : World) → pre w.memory → post (m w).0 (m w).1.memory

-- None of the three marks fell, and the skip list is the same.
pub record Marks (s t : UpdateState) : Type 0 where
  pub index : AtLeast t.last_seen_sequence s.last_seen_sequence
  pub fallback : AtLeast t.last_seen_fallback_sequence s.last_seen_fallback_sequence
  pub directory : AtLeast t.last_seen_directory_sequence s.last_seen_directory_sequence
  pub skips : t.skipped ≡ s.skipped

pub Marks-refl : (s : UpdateState) → Marks s s
Marks-refl s = record {
  index = AtLeast-refl s.last_seen_sequence;
  fallback = AtLeast-refl s.last_seen_fallback_sequence;
  directory = AtLeast-refl s.last_seen_directory_sequence;
  skips = refl;
}

pub Marks-trans : (s t u : UpdateState) → Marks s t → Marks t u → Marks s u
Marks-trans s t u h k = record {
  index =
      AtLeast-trans u.last_seen_sequence t.last_seen_sequence s.last_seen_sequence k.index h.index;
  fallback =
      AtLeast-trans u.last_seen_fallback_sequence t.last_seen_fallback_sequence
        s.last_seen_fallback_sequence k.fallback h.fallback;
  directory =
      AtLeast-trans u.last_seen_directory_sequence t.last_seen_directory_sequence
        s.last_seen_directory_sequence k.directory h.directory;
  skips = k.skips ∙ h.skips;
}

pub failure-Marks :
    (key : Str) (now : ℤ) (s : UpdateState) → Marks s (record_source_failure key now s)
unfolding record_source_failure
failure-Marks key now s = elim (Bool-cases (key == [])) [
  | inl e ↦ rw e (Marks-refl s)
  | inr n ↦ rw n (record {
    index = AtLeast-refl s.last_seen_sequence;
    fallback = AtLeast-refl s.last_seen_fallback_sequence;
    directory = AtLeast-refl s.last_seen_directory_sequence;
    skips = refl;
  })
]

pub success-Marks :
    (key : Str) (bps now : ℤ) (s : UpdateState) → Marks s (record_source_success key bps now s)
unfolding record_source_success
success-Marks key bps now s = elim (Bool-cases (key == [])) [
  | inl e ↦ rw e (Marks-refl s)
  | inr n ↦ rw n (record {
    index = AtLeast-refl s.last_seen_sequence;
    fallback = AtLeast-refl s.last_seen_fallback_sequence;
    directory = AtLeast-refl s.last_seen_directory_sequence;
    skips = refl;
  })
]

pub observe-Marks : (n : ℤ) (s : UpdateState) → Marks s (observe_sequence n s)
unfolding observe_sequence
observe-Marks n s = record {
  index = (raise_mark-AtLeast s.last_seen_sequence n).0;
  fallback = AtLeast-refl s.last_seen_fallback_sequence;
  directory = AtLeast-refl s.last_seen_directory_sequence;
  skips = refl;
}

pub observe_fallback-Marks : (n : ℤ) (s : UpdateState) → Marks s (observe_fallback_sequence n s)
unfolding observe_fallback_sequence
observe_fallback-Marks n s = record {
  index = AtLeast-refl s.last_seen_sequence;
  fallback = (raise_mark-AtLeast s.last_seen_fallback_sequence n).0;
  directory = AtLeast-refl s.last_seen_directory_sequence;
  skips = refl;
}

pub observe_directory-Marks : (n : ℤ) (s : UpdateState) → Marks s (observe_directory_sequence n s)
unfolding observe_directory_sequence
observe_directory-Marks n s = record {
  index = AtLeast-refl s.last_seen_sequence;
  fallback = AtLeast-refl s.last_seen_fallback_sequence;
  directory = (raise_mark-AtLeast s.last_seen_directory_sequence n).0;
  skips = refl;
}

pub observe-AtLeast :
    (n : ℤ) (s : UpdateState) → AtLeast (observe_sequence n s).last_seen_sequence (some n)
unfolding observe_sequence
observe-AtLeast n s = (raise_mark-AtLeast s.last_seen_sequence n).1

-- What stays true while the marks rise.
abbrev pub Upward : (UpdateState → Type 0) → Type 0
Upward pre = (s t : UpdateState) → Marks s t → pre s → pre t

pub Marks-Upward : (start : UpdateState) → Upward (Marks start)
Marks-Upward start s t h p = Marks-trans start s t p h

module _ {ℓ κ} {A : Type ℓ} {B : Type κ} {pre : UpdateState → Type 0} where
  pub triple_bind :
      {m : M A} {f : A → M B} {mid : A → UpdateState → Type 0} {post : B → UpdateState → Type 0}
      → Triple pre m mid
      → ((a : A) → Triple (mid a) (f a) post)
      → Triple pre (m >>= f) post
  unfolding ◌>>=◌
  triple_bind {m} h k = record { runs = λ w p. (k (m w).0).runs (m w).1 (h.runs w p) }

module _ {ℓ} {A : Type ℓ} {pre : UpdateState → Type 0} where
  pub triple_pure :
      (a : A) {post : A → UpdateState → Type 0}
      → ((s : UpdateState) → pre s → post a s)
      → Triple pre (pure a) post
  unfolding pure
  triple_pure a h = record { runs = λ w p. h w.memory p }

  -- A precondition may say more.
  pub weaken :
      {stronger : UpdateState → Type 0} {m : M A} {post : A → UpdateState → Type 0}
      → ((s : UpdateState) → stronger s → pre s)
      → Triple pre m post
      → Triple stronger m post
  weaken f h = record { runs = λ w p. h.runs w (f w.memory p) }

  pub triple_result {κ η} :
      {E : Type κ} {R : Type η} (r : Result E R) {f : E → M A} {g : R → M A}
      {post : A → UpdateState → Type 0}
      → ((e : E) → r ≡ err e → Triple pre (f e) post)
      → ((x : R) → r ≡ ok x → Triple pre (g x) post)
      → Triple pre (elim r [ err e ↦ f e | ok x ↦ g x ]) post
  triple_result (err e) h k = h e refl
  triple_result (ok x) h k = k x refl

  pub triple_option {κ} :
      {R : Type κ} (r : Option R) {f : M A} {g : R → M A} {post : A → UpdateState → Type 0}
      → (r ≡ none → Triple pre f post)
      → ((x : R) → r ≡ some x → Triple pre (g x) post)
      → Triple pre (elim r [ none ↦ f | some x ↦ g x ]) post
  triple_option none h k = h refl
  triple_option (some x) h k = k x refl

module _ {pre : UpdateState → Type 0} where
  pub triple_remembered : Triple pre remembered (λ st s. pre s × (st ≡ s))
  unfolding remembered
  triple_remembered = record { runs = λ w p. (p, refl) }

  pub triple_get_bytes : (net : Net) (url : Str) → Triple pre (get_bytes net url) (λ _ s. pre s)
  unfolding get_bytes
  triple_get_bytes net url = record { runs = λ w p. p }

  pub triple_get_fresh : (net : Net) (url : Str) → Triple pre (get_fresh net url) (λ _ s. pre s)
  unfolding get_fresh
  triple_get_fresh net url = record { runs = λ w p. p }

  pub triple_update :
      (net : Net) (f : ℤ → UpdateState → UpdateState)
      → Upward pre
      → ((now : ℤ) (s : UpdateState) → Marks s (f now s))
      → Triple pre (update net f) (λ _ s. pre s)
  unfolding update
  triple_update net f up h = record {
    runs = λ w p. up w.memory (f (net.now w.calls) w.memory) (h (net.now w.calls) w.memory) p;
  }
