-- ===== src/Inprocess/Kept.antt =====
-- What the parts of a check keep, and what a fetched manifest is.
use relkit.Sdk.Ranking.{rank_url_strings}
use relkit.Prelude.{
  is_empty, ◌≡◌, sym, pos, true, Bool-cases, inl, inr, Option, none, some, Option-cases, List, [],
  ◌∷◌, Str, ◌==◌, eq_iff, eqb_ℤ, eqb_ℤ_iff, length, arith,
}
use relkit.Prelude.Results.{Result, ok, err}
use relkit.Rup.{Index, VersionNode, Manifest, Artifact, DigestRef}
use relkit.Sdk.State.{
  observe_directory_sequence, UpdateState, record_source_failure, record_source_success,
}
use relkit.Selectors.{select_artifact_preferring}
use relkit.Selectors.Choice.{IsChoice, select-IsChoice}
use relkit.Inprocess.{
  all_mirrors_failed, ◌>>=◌, remembered, no_manifest_urls, pure, Updater, Attempt, TargetError,
}
use relkit.Inprocess.Sources.{
  services_for_channel, candidates_of, load_directory, try_entries, resolve_index_plan,
}
use relkit.Inprocess.Target.{preferences, same_identity, judge_manifest, try_mirrors, fetch_target}
use relkit.Inprocess.Triples.{
  weaken, Triple, Upward, triple_bind, triple_pure, triple_result, triple_option, triple_remembered,
  triple_get_bytes, triple_get_fresh, triple_update, failure-Marks, success-Marks,
  observe_directory-Marks,
}

-- A manifest that belongs to this version of the index, and the artifact chosen from it.
pub record IsTarget (u : Updater) (index : Index) (target : VersionNode) (m : Manifest)
    (a : Artifact) : Type 0 where
  pub digest : DigestRef
  pub body : Str
  pub named : target.manifest ≡ some digest
  pub hash : u.wire.sha256_hex body ≡ digest.sha256
  pub size : pos (length body) ≡ digest.size
  pub read : u.wire.unmarshal_manifest body ≡ some m
  pub product : m.product ≡ index.product
  pub version : m.version ≡ target.version
  pub code : m.code ≡ target.code
  pub chosen : IsChoice m u.client_selectors (preferences u) a

same_identity-parts :
    (index : Index) (target : VersionNode) (m : Manifest)
    → same_identity index target m ≡ true
    → (m.product ≡ index.product) × (m.version ≡ target.version) × (m.code ≡ target.code)
unfolding same_identity
same_identity-parts index target m e = (
  ground (arith, eq_iff m.product index.product),
  ground (arith, eq_iff m.version target.version),
  ground (arith, eqb_ℤ_iff m.code target.code),
)

ok_ne_err : {x : Manifest × Artifact} {e : TargetError} → err e ≡ ok x → ⊥
ok_ne_err q = cc

judge-IsTarget :
    (u : Updater) (index : Index) (target : VersionNode) (d : DigestRef) (o : Option Str)
    {m : Manifest} {a : Artifact}
    → target.manifest ≡ some d
    → judge_manifest u index target d o ≡ ok (m, a)
    → IsTarget u index target m a
unfolding judge_manifest
judge-IsTarget u index target d none n e = absurd (ok_ne_err e)
judge-IsTarget u index target d (some body) {m} {a} n e =
    elim (Bool-cases (u.wire.sha256_hex body == d.sha256)) [
      | inr h ↦ absurd (ok_ne_err (rw h at e))
      | inl h ↦ elim (Bool-cases (eqb_ℤ (pos (length body)) d.size)) [
        | inr z ↦ absurd (ok_ne_err (rw (h, z) at e))
        | inl z ↦ elim (Option-cases (u.wire.unmarshal_manifest body)) [
          | inl r ↦ absurd (ok_ne_err (rw (h, z, r, judge_manifest) at e))
          | inr (read, r) ↦ elim (Bool-cases (same_identity index target read)) [
            | inr i ↦ absurd (ok_ne_err (rw (h, z, r, judge_manifest, i) at e))
            | inl i ↦
                elim (Option-cases
                  (select_artifact_preferring read u.client_selectors (preferences u))) [
                    | inl c ↦ absurd (ok_ne_err (rw (h, z, r, judge_manifest, i, c) at e))
                    | inr (b, c) ↦
                        found read b ((eq_iff (u.wire.sha256_hex body) d.sha256).0 h)
                          ((eqb_ℤ_iff (pos (length body)) d.size).0 z) r
                          (same_identity-parts index target read i)
                          (select-IsChoice read u.client_selectors (preferences u) c)
                          (rw (h, z, r, judge_manifest, i, c) at e)
                  ]
          ]
        ]
      ]
    ]
  where
    found :
        (read : Manifest) (b : Artifact)
        → u.wire.sha256_hex body ≡ d.sha256
        → pos (length body) ≡ d.size
        → u.wire.unmarshal_manifest body ≡ some read
        → (read.product ≡ index.product)
          × (read.version ≡ target.version)
          × (read.code ≡ target.code)
        → IsChoice read u.client_selectors (preferences u) b
        → ◌≡◌ {A = Result TargetError (Manifest × Artifact)} (ok (read, b)) (ok (m, a))
        → IsTarget u index target m a
    found read b h z r (p, v, k) c q =
        let same_m : read ≡ m = cc in
        let same_a : b ≡ a = cc in
        rw (sym same_m, sym same_a)
          (record {
            digest = d;
            body = body;
            named = n;
            hash = h;
            size = z;
            read = r;
            product = p;
            version = v;
            code = k;
            chosen = c;
          })

-- What `fetchTarget` promises of its result.
abbrev pub TargetFound :
    Updater → Index → VersionNode → Result TargetError (Manifest × Artifact) → Type 0
TargetFound u index target (err e) = Unit {0}
TargetFound u index target (ok (m, a)) = IsTarget u index target m a

module _ (pre : UpdateState → Type 0) (up : Upward pre) where
  mirrors-TargetFound :
      (u : Updater) (index : Index) (target : VersionNode) (d : DigestRef) (urls : List Str)
      (last : TargetError)
      → target.manifest ≡ some d
      → Triple pre
          (try_mirrors u index target d urls last)
          (λ r s. pre s × TargetFound u index target r)
  unfolding try_mirrors
  mirrors-TargetFound u index target d [] last n = triple_pure (err last) (λ s p. (p, tt))
  mirrors-TargetFound u index target d (url ∷ urls) last n =
      triple_bind (triple_get_bytes u.net url) (λ body.
        triple_result (judge_manifest u index target d body)
          (λ e _.
            triple_bind (triple_update u.net (record_source_failure url) up (failure-Marks url))
              (λ _. mirrors-TargetFound u index target d urls e n))
          (λ found j.
            triple_bind
              (triple_update u.net (record_source_success url (pos 0)) up
                (success-Marks url (pos 0)))
              (λ _. triple_pure (ok found) (λ s p. (p, judge-IsTarget u index target d body n j)))))

  pub fetch-TargetFound :
      (u : Updater) (index : Index) (target : VersionNode)
      → Triple pre (fetch_target u index target) (λ r s. pre s × TargetFound u index target r)
  unfolding fetch_target
  fetch-TargetFound u index target =
      triple_option target.manifest (λ _. triple_pure _ (λ s p. (p, tt)))
        (λ d n. mirrors_of d n d.urls)
    where
      mirrors_of :
          (d : DigestRef)
          → target.manifest ≡ some d
          → (urls : List Str)
          → Triple pre
              (elim urls [
                | [] ↦ pure (err no_manifest_urls)
                | url ∷ rest ↦ remembered >>= λ st.
                    try_mirrors u index target d
                      (rank_url_strings st (url ∷ rest))
                      all_mirrors_failed
              ])
              (λ r s. pre s × TargetFound u index target r)
      mirrors_of d n [] = triple_pure _ (λ s p. (p, tt))
      mirrors_of d n (url ∷ rest) = triple_bind triple_remembered (λ st.
          weaken (λ s p. p.0)
            (mirrors-TargetFound u index target d (rank_url_strings st (url ∷ rest))
              all_mirrors_failed n))

  pub load_directory-keeps :
      (u : Updater) (url : Str) → Triple pre (load_directory u url) (λ _ s. pre s)
  unfolding load_directory
  load_directory-keeps u url =
      triple_bind (triple_get_fresh u.net url)
        (λ body. triple_bind triple_remembered (λ st. triple_pure _ (λ s p. p.0)))

  try_entries-keeps :
      (u : Updater) (urls : List Str) (fallbacks : List Str) (attempts : List Attempt)
      → Triple pre (try_entries u urls fallbacks attempts) (λ _ s. pre s)
  unfolding try_entries
  try_entries-keeps u [] fallbacks attempts = triple_pure _ (λ s p. p)
  try_entries-keeps u (url ∷ urls) fallbacks attempts =
      triple_bind (load_directory-keeps u url) (λ loaded.
        triple_result loaded
          (λ e _.
            triple_bind (triple_update u.net (record_source_failure url) up (failure-Marks url))
              (λ _. try_entries-keeps u urls fallbacks _))
          (λ doc _.
            triple_bind
              (triple_bind
                (triple_update u.net (record_source_success url (pos 0)) up
                  (success-Marks url (pos 0)))
                (λ _.
                  triple_update u.net (λ _. observe_directory_sequence doc.directory_sequence) up
                    (λ _. observe_directory-Marks doc.directory_sequence)))
              (λ _.
                let services = services_for_channel doc u.channel in
                elim (Bool-cases (is_empty (candidates_of services))) [
                  | inl e ↦ rw e (try_entries-keeps u urls _ _)
                  | inr e ↦ rw e (triple_pure _ (λ s p. p))
                ])))

  pub resolve_index_plan-keeps : (u : Updater) → Triple pre (resolve_index_plan u) (λ _ s. pre s)
  unfolding resolve_index_plan
  resolve_index_plan-keeps u = triple_bind triple_remembered (λ st.
      elim (Bool-cases (is_empty u.entry_urls)) [
        | inl e ↦ rw e (triple_pure _ (λ s p. p.0))
        | inr e ↦ rw e (
            weaken (λ s p. p.0)
              (triple_bind (try_entries-keeps u _ u.fallback_urls [])
                (λ plan. triple_bind triple_remembered (λ later. triple_pure _ (λ s p. p.0)))))
      ])
