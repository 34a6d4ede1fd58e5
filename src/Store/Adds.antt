-- ===== src/Store/Adds.antt =====
-- What the loops over URLs, files and artifacts add to the set of live keys.
use relkit.Prelude.{
  ◌∙◌, false≢true, true, Option, none, some, List, [], ◌∷◌, Str, str, ◌≡◌, ◌⊎◌, inl, inr, In, here,
  there, In-cons, refl, sym, subst, Bool-cases,
}
use relkit.Prelude.Text.{has_prefix}
use relkit.Prelude.Sets.{contains, add_key, contains-In}
use relkit.Store.Keys.{Reader, local_key_from_url}
use relkit.Store.Live.{add_some, add_urls, add_artifact_key, add_latest_urls}

-- `after` has the keys of `before` and those of which `P` holds.
pub record Adds (P : Str → Type 0) (before after : List Str) : Type 0 where
  pub from : (k : Str) → In k after → P k ⊎ In k before
  pub into_new : (k : Str) → P k → In k after
  pub into_old : (k : Str) → In k before → In k after

abbrev pub Exists {ℓ} : {A : Type ℓ} → (A → Str → Type 0) → List A → Str → Type ℓ
Exists {A = A} P xs k = (x : A) × In x xs × P x k

pub Adds-nothing : {P : Str → Type 0} {live : List Str} → ((k : Str) → P k → ⊥) → Adds P live live
Adds-nothing never = record {
  from = λ k i. inr i;
  into_new = λ k p. absurd (never k p);
  into_old = λ k i. i;
}

pub Adds-step :
    {P Q S : Str → Type 0} {a b c : List Str}
    → ((k : Str) → S k → P k ⊎ Q k)
    → ((k : Str) → P k → S k)
    → ((k : Str) → Q k → S k)
    → Adds P a b
    → Adds Q b c
    → Adds S a c
Adds-step split left right p q = record {
  from = λ k i. elim (q.from k i) [
    | inl y ↦ inl (right k y)
    | inr j ↦ elim (p.from k j) [ inl x ↦ inl (left k x) | inr h ↦ inr h ]
  ];
  into_new =
      λ k s. elim (split k s) [ inl x ↦ q.into_old k (p.into_new k x) | inr y ↦ q.into_new k y ];
  into_old = λ k i. q.into_old k (p.into_old k i);
}

Exists-split :
    {A : Type 0} (P : A → Str → Type 0) {x : A} {xs : List A} (k : Str)
    → Exists P (x ∷ xs) k
    → P x k ⊎ Exists P xs k
Exists-split P k (y, here e, p) = inl (subst (λ z. P z k) e p)
Exists-split P k (y, there i, p) = inr (y, i, p)

pub Adds-cons :
    {A : Type 0} (P : A → Str → Type 0) {x : A} {xs : List A} {a b c : List Str}
    → Adds (P x) a b
    → Adds (Exists P xs) b c
    → Adds (Exists P (x ∷ xs)) a c
Adds-cons P {x} p q =
    Adds-step (Exists-split P) (λ k h. (x, here refl, h)) (λ k h. (h.0, there h.1, h.2)) p q

pub Adds-nil : {A : Type 0} (P : A → Str → Type 0) {live : List Str} → Adds (Exists P []) live live
Adds-nil P = Adds-nothing (λ k h. elim h.1 [ ])

pub add_key-Adds : (key : Str) (live : List Str) → Adds (λ k. key ≡ k) live (add_key key live)
unfolding add_key
add_key-Adds key live = elim (Bool-cases (contains key live)) [
  | inl found ↦ rw found (record {
    from = λ k i. inr i;
    into_new = λ k e. subst (λ z. In z live) e (contains-In key live found);
    into_old = λ k i. i;
  })
  | inr absent ↦ rw absent (record {
    from = λ k i. elim (In-cons i) [ inl e ↦ inl (sym e) | inr j ↦ inr j ];
    into_new = λ k e. here (sym e);
    into_old = λ k i. there i;
  })
]

some_inj : {a b : Str} → ◌≡◌ {A = Option Str} (some a) (some b) → a ≡ b
some_inj e = cc

pub add_some-Adds :
    (o : Option Str) (live : List Str) → Adds (λ k. o ≡ some k) live (add_some o live)
unfolding add_some
add_some-Adds none live = Adds-nothing (λ k e. cc)
add_some-Adds (some key) live =
    let a = add_key-Adds key live in
    record {
      from = λ k i. elim (a.from k i) [ inl e ↦ inl (rw e) | inr j ↦ inr j ];
      into_new = λ k e. a.into_new k (some_inj e);
      into_old = a.into_old;
    }

pub add_urls-Adds :
    (r : Reader) (urls : List Str) (live : List Str)
    → Adds (Exists (λ u k. local_key_from_url r u ≡ some k) urls) live (add_urls r urls live)
unfolding add_urls
add_urls-Adds r [] live = Adds-nil _
add_urls-Adds r (u ∷ urls) live =
    Adds-cons (λ u k. local_key_from_url r u ≡ some k) (add_some-Adds _ live)
      (add_urls-Adds r urls _)

-- The keys of artifacts among those that an optional key is.
abbrev pub IsArtifactKey : Option Str → Str → Type 0
IsArtifactKey o k = (o ≡ some k) × (has_prefix k (str "artifact/") ≡ true)

add_artifact_key-Adds :
    (o : Option Str) (live : List Str) → Adds (IsArtifactKey o) live (add_artifact_key o live)
unfolding add_artifact_key
add_artifact_key-Adds none live = Adds-nothing (λ k e. cc)
add_artifact_key-Adds (some key) live = elim (Bool-cases (has_prefix key (str "artifact/"))) [
  | inl found ↦ rw found (record {
    from = λ k i. elim ((add_key-Adds key live).from k i) [
      | inl e ↦ inl (rw e, rw (sym e) found)
      | inr j ↦ inr j
    ];
    into_new = λ k e. (add_key-Adds key live).into_new k (some_inj e.0);
    into_old = (add_key-Adds key live).into_old;
  })
  | inr absent ↦ rw absent (Adds-nothing (λ k e. false≢true (sym absent ∙ rw (some_inj e.0) e.1)))
]

pub add_latest_urls-Adds :
    (r : Reader) (urls : List Str) (live : List Str)
    → Adds
        (Exists (λ u. IsArtifactKey (local_key_from_url r u)) urls)
        live
        (add_latest_urls r urls live)
unfolding add_latest_urls
add_latest_urls-Adds r [] live = Adds-nil _
add_latest_urls-Adds r (u ∷ urls) live =
    Adds-cons (λ u. IsArtifactKey (local_key_from_url r u)) (add_artifact_key-Adds _ live)
      (add_latest_urls-Adds r urls _)
