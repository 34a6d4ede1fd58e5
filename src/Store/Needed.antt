-- ===== src/Store/Needed.antt =====
-- The keys that `gcOnce` computes are those that are needed.
use relkit.Prelude.{
  Bool, true, false, Option, none, some, List, [], ◌∷◌, ◌++◌, Str, str, ◌==◌, ◌≡◌, inl, inr, In,
  refl, sym, subst, ◌∙◌, Bool-cases, Option-cases, keep, keep-In, In-keep, false≢true,
  if◌then◌else◌, any, is_empty, eqb_ℕ, ◌↔◌, arith,
}
use relkit.Prelude.Text.{has_prefix}
use relkit.Prelude.Results.{Result, ok, err}
use relkit.Rup.{Index}
use relkit.Store.Keys.{
  File, Root, Reader, is_published_index_file, list_files_under, read_index_doc, read_manifest_doc,
  read_file, index_urls, some_urls, manifest_urls, read_index_manifest_urls,
}
use relkit.Store.Live.{
  GcError, all_failed, no_references, add_latest, latest_of, expand_all, manifest_keys, Scan,
  scan_indexes, nothing_scanned, live_after_scan, live_from, live_keys,
}
use relkit.Store.Adds.{Adds, Exists, Adds-nothing}
use relkit.Store.Referenced.{
  IsIndexed, by_index, IsLatest, by_pointer, IsNeeded, indexed, latest, part,
}
use relkit.Store.Parts.{expand_all-Adds, IsPartOf}
use relkit.Store.Scans.{
  IsPointed, IsScanned, add_latest_files-Adds, scan_indexes-Adds, manifest_urls-IsManifestUrl,
  In-manifest_urls,
}

listed :
    (root : Root) (prefix : Str) {files : List File}
    → list_files_under root prefix ≡ some files
    → files ≡ keep (λ f. has_prefix f.name (prefix ++ str "/")) root.files
unfolding list_files_under
listed root prefix {files} e = go (any (λ d. d.dir_name == prefix) root.dirs) e
  where
    some_inj : {a b : List File} → ◌≡◌ {A = Option (List File)} (some a) (some b) → b ≡ a
    some_inj p = cc

    none_is_some : {a : List File} → ◌≡◌ {A = Option (List File)} none (some a) → ⊥
    none_is_some p = cc

    go :
        (b : Bool)
        → (if b then some (keep (λ f. has_prefix f.name (prefix ++ str "/")) root.files) else none)
          ≡ some files
        → files ≡ keep (λ f. has_prefix f.name (prefix ++ str "/")) root.files
    go true p = some_inj p
    go false p = absurd (none_is_some p)

published-has_prefix :
    (name : Str) → is_published_index_file name ≡ true → has_prefix name (str "index/") ≡ true
unfolding is_published_index_file
published-has_prefix name e = elim (Bool-cases (has_prefix name (str "index/"))) [
  | inl p ↦ p
  | inr p ↦ absurd (false≢true (rw p at e))
]

-- No key stands both among the artifacts and among the manifests.
not_both :
    (k : Str) → has_prefix k (str "artifact/") ≡ true → has_prefix k (str "manifest/") ≡ true → ⊥
unfolding has_prefix
not_both [] a m = false≢true a
not_both (c ∷ s) a m = ground arith

index_urls-some :
    (o : Option Index) {urls : List Str}
    → index_urls o ≡ some urls
    → (index : Index) × (o ≡ some index) × (manifest_urls index.versions ≡ urls)
unfolding index_urls some_urls
index_urls-some none e = absurd (none_is_some e)
  where
    none_is_some : {a : List Str} → ◌≡◌ {A = Option (List Str)} none (some a) → ⊥
    none_is_some p = cc
index_urls-some (some index) {urls} e = (index, refl, go (manifest_urls index.versions) e)
  where
    go : (us : List Str) → some_urls us ≡ some urls → us ≡ urls
    go [] p = cc
    go (u ∷ us) p = cc

some_urls-In : {u : Str} (urls : List Str) → In u urls → some_urls urls ≡ some urls
unfolding some_urls
some_urls-In [] i = elim i [ ]
some_urls-In (u ∷ urls) i = refl

latest_of-In :
    (r : Reader) (o : Option Str) {u : Str}
    → In u (latest_of r o)
    → (raw : Str) × (urls : List Str) × (o ≡ some raw) × (r.latest_urls raw ≡ some urls) × In u urls
unfolding latest_of
latest_of-In r none i = elim i [ ]
latest_of-In r (some raw) i = elim (Option-cases (r.latest_urls raw)) [
  | inl e ↦ elim (rw (e, latest_of) at i) [ ]
  | inr (urls, e) ↦ (raw, urls, refl, e, rw (e, latest_of) at i)
]

In-latest_of :
    (r : Reader) (o : Option Str) {raw u : Str} {urls : List Str}
    → o ≡ some raw
    → r.latest_urls raw ≡ some urls
    → In u urls
    → In u (latest_of r o)
unfolding latest_of
In-latest_of r o e d i = rw (e, latest_of) (rw d i)

module _ (r : Reader) (root : Root) where
  IsIndexed-of_scan :
      {files : List File} (k : Str)
      → list_files_under root (str "index") ≡ some files
      → Exists (IsScanned r root) files k
      → IsIndexed r root k
  unfolding index_urls read_index_manifest_urls
  IsIndexed-of_scan k e (f, i, (p, (urls, d, (u, j, h)))) =
      let (index, q, w) = index_urls-some (read_index_doc r root f.name) d in
      let (v, m, a, b, c) =
        manifest_urls-IsManifestUrl index.versions (subst (λ us. In u us) (sym w) j) in
      by_index f index v m u
        (keep-In _ root.files (subst (λ fs. In f fs) (listed root (str "index") e) i)).0 p q a b c h

  scan_of_IsIndexed :
      {files : List File} (k : Str)
      → list_files_under root (str "index") ≡ some files
      → IsIndexed r root k
      → Exists (IsScanned r root) files k
  unfolding index_urls read_index_manifest_urls
  scan_of_IsIndexed k e (by_index f index v m u i p q a b c h) =
      let j = In-manifest_urls index.versions a b c in
      (
        f,
        subst (λ fs. In f fs) (sym (listed root (str "index") e))
            (In-keep _ root.files i (published-has_prefix f.name p)),
        (p, (manifest_urls index.versions, rw (q, index_urls) (some_urls-In _ j), (u, j, h))),
      )

  -- What the latest pointers add.
  add_latest-Adds :
      (o : Option (List File)) (live : List Str)
      → list_files_under root (str "latest") ≡ o
      → Adds (IsLatest r root) live (add_latest r root o live)
  unfolding add_latest
  add_latest-Adds none live e = Adds-nothing never
    where
      none_is_some : {a : List File} → ◌≡◌ {A = Option (List File)} none (some a) → ⊥
      none_is_some p = cc

      never : (k : Str) → IsLatest r root k → ⊥
      never k (by_pointer fs f raw urls u l i d w j h p) = none_is_some (sym e ∙ l)
  add_latest-Adds (some files) live e = record {
    from = λ k i. elim (added.from k i) [ inl p ↦ inl (pointer k p) | inr j ↦ inr j ];
    into_new = λ k h. added.into_new k (pointed k h);
    into_old = added.into_old;
  }
    where
      added : Adds (Exists (IsPointed r root) files) live (add_latest r root (some files) live)
      added = add_latest_files-Adds r root files live

      pointer : (k : Str) → Exists (IsPointed r root) files k → IsLatest r root k
      pointer k (f, i, (u, j, (h, p))) =
          let (raw, urls, a, b, c) = latest_of-In r (read_file root f.name) j in
          by_pointer files f raw urls u e i a b c h p

      some_inj : {a b : List File} → ◌≡◌ {A = Option (List File)} (some a) (some b) → b ≡ a
      some_inj p = cc

      pointed : (k : Str) → IsLatest r root k → Exists (IsPointed r root) files k
      pointed k (by_pointer fs f raw urls u l i d w j h p) = (
        f,
        subst (λ x. In f x) (some_inj (sym e ∙ l)) i,
        (u, In-latest_of r (read_file root f.name) d w j, (h, p)),
      )

  -- From the indexed keys to the needed ones.
  needed_of_scan :
      (keys live : List Str)
      → Adds (IsIndexed r root) [] keys
      → expand_all r root
          (manifest_keys (add_latest r root (list_files_under root (str "latest")) keys))
          (add_latest r root (list_files_under root (str "latest")) keys)
        ≡ ok live
      → (k : Str) → In k live ↔ IsNeeded r root k
  unfolding manifest_keys
  needed_of_scan keys live scanned e k = (into, outof)
    where
      latests :
          Adds
            (IsLatest r root)
            keys
            (add_latest r root (list_files_under root (str "latest")) keys)
      latests = add_latest-Adds _ keys refl

      parts :
          Adds
            (Exists
              (λ key. IsPartOf r (read_manifest_doc r root key))
              (manifest_keys (add_latest r root (list_files_under root (str "latest")) keys)))
            (add_latest r root (list_files_under root (str "latest")) keys)
            live
      parts = expand_all-Adds r root _ _ live e

      of_scanned : (j : Str) → In j keys → IsIndexed r root j
      of_scanned j i = elim (scanned.from j i) [ inl h ↦ h | inr n ↦ elim n [ ] ]

      of_manifest :
          (m : Str)
          → has_prefix m (str "manifest/") ≡ true
          → In m (add_latest r root (list_files_under root (str "latest")) keys)
          → IsIndexed r root m
      of_manifest m p i = elim (latests.from m i) [
        | inl (by_pointer fs f raw urls u l a b c d h q) ↦ absurd (not_both m q p)
        | inr j ↦ of_scanned m j
      ]

      into : In k live → IsNeeded r root k
      into i = elim (parts.from k i) [
        | inl (m, j, (doc, d, (o, a, (art, w, place)))) ↦
            let (x, y) = keep-In _ _ j in
            part m doc art (of_manifest m y x) y d (subst (λ z. In z doc.artifacts) w a) place
        | inr j ↦ elim (latests.from k j) [ inl h ↦ latest h | inr n ↦ indexed (of_scanned k n) ]
      ]

      outof : IsNeeded r root k → In k live
      outof (indexed h) = parts.into_old k (latests.into_old k (scanned.into_new k h))
      outof (latest h) = parts.into_old k (latests.into_new k h)
      outof (part m doc art h p d a place) = parts.into_new k (
        m,
        In-keep _ _ (latests.into_old m (scanned.into_new m h)) p,
        (doc, d, (some art, a, (art, refl, place))),
      )

  after_scan :
      (scan : Scan) (live : List Str)
      → Adds (IsIndexed r root) [] scan.keys
      → live_after_scan r root scan ≡ ok live
      → (k : Str) → In k live ↔ IsNeeded r root k
  unfolding live_after_scan
  after_scan scan live scanned e k = go (eqb_ℕ scan.parsed 0) (is_empty scan.keys) e
    where
      err_is_ok : {x : GcError} → ◌≡◌ {A = Result GcError (List Str)} (err x) (ok live) → ⊥
      err_is_ok p = cc

      go :
          (a b : Bool)
          → (if a
              then err all_failed
              else if b
              then err no_references
              else expand_all r root
                  (manifest_keys
                    (add_latest r root (list_files_under root (str "latest")) scan.keys))
                  (add_latest r root (list_files_under root (str "latest")) scan.keys))
            ≡ ok live
          → In k live ↔ IsNeeded r root k
      go true b p = absurd (err_is_ok p)
      go false true p = absurd (err_is_ok p)
      go false false p = needed_of_scan scan.keys live scanned p k

  from_listing :
      (o : Option (List File)) (live : List Str)
      → list_files_under root (str "index") ≡ o
      → live_from r root o ≡ ok live
      → (k : Str) → In k live ↔ IsNeeded r root k
  unfolding live_from nothing_scanned
  from_listing none live q e k = absurd (err_is_ok e)
    where
      err_is_ok : {x : GcError} → ◌≡◌ {A = Result GcError (List Str)} (err x) (ok live) → ⊥
      err_is_ok p = cc
  from_listing (some []) live q e k = absurd (err_is_ok e)
    where
      err_is_ok : {x : GcError} → ◌≡◌ {A = Result GcError (List Str)} (err x) (ok live) → ⊥
      err_is_ok p = cc
  from_listing (some (f ∷ files)) live q e k =
      after_scan (scan_indexes r root (f ∷ files) nothing_scanned) live named e k
    where
      scanned :
          Adds
            (Exists (IsScanned r root) (f ∷ files))
            nothing_scanned.keys
            (scan_indexes r root (f ∷ files) nothing_scanned).keys
      scanned = scan_indexes-Adds r root (f ∷ files) nothing_scanned

      named : Adds (IsIndexed r root) [] (scan_indexes r root (f ∷ files) nothing_scanned).keys
      named = record {
        from = λ j i. elim (scanned.from j i) [
          | inl h ↦ inl (IsIndexed-of_scan j q h)
          | inr n ↦ elim n [ ]
        ];
        into_new = λ j h. scanned.into_new j (scan_of_IsIndexed j q h);
        into_old = λ j i. elim i [ ];
      }

  -- If the first half of `gcOnce` ends with a set of live keys, that set has exactly the keys
  -- that the published indexes, the latest pointers and the artifacts of the manifests that the
  -- indexes name need.
  pub live_keys-IsNeeded :
      (live : List Str) (k : Str) → live_keys r root ≡ ok live → In k live ↔ IsNeeded r root k
  unfolding live_keys
  live_keys-IsNeeded live k e = from_listing (list_files_under root (str "index")) live refl e k
