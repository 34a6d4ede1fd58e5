-- ===== src/Store/Parts.antt =====
-- What the loop of `gcOnce` over the live manifests adds to the live keys: the places of their
-- artifacts.
use relkit.Prelude.{
  if◌then◌else◌, Bool, true, false, Option, none, some, List, [], ◌∷◌, Str, ◌≡◌, ◌⊎◌, inl, inr,
  refl, sym, subst, is_empty,
}
use relkit.Prelude.Results.{Result, ok, err}
use relkit.Rup.{Manifest, Artifact}
use relkit.Store.Keys.{Root, Reader, local_key_from_url, cas_key, read_manifest_doc}
use relkit.Store.Live.{
  manifest_without_urls, manifest_without_artifacts, GcError, add_artifacts, expand, expand_all,
  got_url, add_urls, add_some,
}
use relkit.Store.Adds.{
  Adds, Exists, Adds-nil, Adds-cons, Adds-step, Adds-nothing, add_some-Adds, add_urls-Adds,
}
use relkit.Store.Referenced.{IsPlace, by_url, by_digest}

module _ (r : Reader) where
  abbrev pub IsPart : Option Artifact → Str → Type 0
  IsPart o k = (a : Artifact) × (o ≡ some a) × IsPlace r a k

  add_artifact-Adds :
      (a : Artifact) (live : List Str)
      → Adds (IsPlace r a) live (add_some (cas_key a.sha256) (add_urls r a.urls live))
  add_artifact-Adds a live =
      Adds-step split (λ k h. by_url h.0 h.1 h.2) (λ k h. by_digest h) (add_urls-Adds r a.urls live)
        (add_some-Adds (cas_key a.sha256) _)
    where
      split :
          (k : Str)
          → IsPlace r a k
          → Exists (λ u j. local_key_from_url r u ≡ some j) a.urls k ⊎ (cas_key a.sha256 ≡ some k)
      split k (by_url u i e) = inl (u, i, e)
      split k (by_digest e) = inr e

  pub add_artifacts-Adds :
      (artifacts : List (Option Artifact)) (live : List Str)
      → Adds (Exists IsPart artifacts) live (add_artifacts r artifacts live)
  unfolding add_artifacts
  add_artifacts-Adds [] live = Adds-nil _
  add_artifacts-Adds (none ∷ rest) live =
      Adds-cons IsPart (Adds-nothing (λ k h. none_is_some h.1)) (add_artifacts-Adds rest live)
    where
      none_is_some : {a : Artifact} → ◌≡◌ {A = Option Artifact} none (some a) → ⊥
      none_is_some e = cc
  add_artifacts-Adds (some a ∷ rest) live =
      Adds-cons IsPart
        (Adds-step (λ k h. inl h) (λ k h. h) (λ k e. absurd e) part
          (Adds-nothing {P = λ k. ⊥} (λ k e. e)))
        (add_artifacts-Adds rest _)
    where
      some_inj : {b : Artifact} → ◌≡◌ {A = Option Artifact} (some a) (some b) → a ≡ b
      some_inj e = cc

      here_part : Adds (IsPlace r a) live (add_some (cas_key a.sha256) (add_urls r a.urls live))
      here_part = add_artifact-Adds a live

      part : Adds (IsPart (some a)) live (add_some (cas_key a.sha256) (add_urls r a.urls live))
      part = record {
        from = λ k i. elim (here_part.from k i) [ inl p ↦ inl (a, refl, p) | inr j ↦ inr j ];
        into_new =
            λ k h. here_part.into_new k (subst (λ b. IsPlace r b k) (sym (some_inj h.1)) h.2);
        into_old = here_part.into_old;
      }

  -- The artifacts of a manifest that was read.
  abbrev pub IsPartOf : Option Manifest → Str → Type 0
  IsPartOf o k = (doc : Manifest) × (o ≡ some doc) × Exists IsPart doc.artifacts k

  expand-Adds :
      (key : Str) (o : Option Manifest) (live after : List Str)
      → expand r key o live ≡ ok after
      → Adds (IsPartOf o) live after
  unfolding expand
  expand-Adds key none live after e = absurd (err_is_ok e)
    where
      err_is_ok : {x : GcError} → ◌≡◌ {A = Result GcError (List Str)} (err x) (ok after) → ⊥
      err_is_ok p = cc
  expand-Adds key (some doc) live after e = go (is_empty doc.artifacts) (got_url r doc.artifacts) e
    where
      some_inj : {b : Manifest} → ◌≡◌ {A = Option Manifest} (some doc) (some b) → doc ≡ b
      some_inj p = cc

      parts : Adds (Exists IsPart doc.artifacts) live (add_artifacts r doc.artifacts live)
      parts = add_artifacts-Adds doc.artifacts live

      all : Adds (IsPartOf (some doc)) live (add_artifacts r doc.artifacts live)
      all = record {
        from = λ k i. elim (parts.from k i) [ inl p ↦ inl (doc, refl, p) | inr j ↦ inr j ];
        into_new = λ k h.
            parts.into_new k (subst (λ d. Exists IsPart d.artifacts k) (sym (some_inj h.1)) h.2);
        into_old = parts.into_old;
      }

      ok_inj : {a b : List Str} → ◌≡◌ {A = Result GcError (List Str)} (ok a) (ok b) → a ≡ b
      ok_inj p = cc

      err_is_ok : {x : GcError} → ◌≡◌ {A = Result GcError (List Str)} (err x) (ok after) → ⊥
      err_is_ok p = cc

      go :
          (a b : Bool)
          → (if a
              then err (manifest_without_artifacts key)
              else if b
              then ok (add_artifacts r doc.artifacts live)
              else err (manifest_without_urls key))
            ≡ ok after
          → Adds (IsPartOf (some doc)) live after
      go true b p = absurd (err_is_ok p)
      go false true p = subst (λ x. Adds (IsPartOf (some doc)) live x) (ok_inj p) all
      go false false p = absurd (err_is_ok p)

module _ (r : Reader) (root : Root) where
  pub expand_all-Adds :
      (keys live after : List Str)
      → expand_all r root keys live ≡ ok after
      → Adds (Exists (λ key. IsPartOf r (read_manifest_doc r root key)) keys) live after
  unfolding expand_all
  expand_all-Adds [] live after e =
      subst (λ x. Adds (Exists (λ j. IsPartOf r (read_manifest_doc r root j)) []) live x) (ok_inj e)
        (Adds-nil _)
    where
      ok_inj : {a b : List Str} → ◌≡◌ {A = Result GcError (List Str)} (ok a) (ok b) → a ≡ b
      ok_inj p = cc
  expand_all-Adds (key ∷ keys) live after e =
      go (expand r key (read_manifest_doc r root key) live) refl e
        (λ more. expand_all-Adds keys more after)
    where
      err_is_ok : {x : GcError} → ◌≡◌ {A = Result GcError (List Str)} (err x) (ok after) → ⊥
      err_is_ok p = cc

      go :
          (res : Result GcError (List Str))
          → expand r key (read_manifest_doc r root key) live ≡ res
          → (elim res [ err x ↦ err x | ok more ↦ expand_all r root keys more ]) ≡ ok after
          → ((more : List Str)
              → expand_all r root keys more ≡ ok after
              → Adds (Exists (λ j. IsPartOf r (read_manifest_doc r root j)) keys) more after)
          → Adds (Exists (λ j. IsPartOf r (read_manifest_doc r root j)) (key ∷ keys)) live after
      go (err x) p q further = absurd (err_is_ok q)
      go (ok more) p q further =
          Adds-cons (λ j. IsPartOf r (read_manifest_doc r root j)) (expand-Adds r key _ live more p)
            (further more q)
