-- ===== src/Store/Scans.antt =====
-- What the loops of `gcOnce` over the indexes and the latest pointers add to the live keys.
use relkit.Prelude.{
  ap, true, Option, none, some, List, [], ◌∷◌, ◌++◌, Str, ◌≡◌, ◌⊎◌, inl, inr, In, here, there,
  In-cons, refl, sym, subst, Bool-cases, ◌∙◌, false≢true,
}
use relkit.Rup.{VersionNode, DigestRef}
use relkit.Store.Keys.{
  File, Root, Reader, local_key_from_url, is_published_index_file, read_file, manifest_urls,
  ref_urls, read_index_manifest_urls,
}
use relkit.Store.Live.{add_urls, add_latest_files, latest_of, Scan, scan_urls, scan_indexes}
use relkit.Store.Adds.{
  Adds, Exists, Adds-nil, Adds-cons, Adds-nothing, IsArtifactKey, add_urls-Adds,
  add_latest_urls-Adds,
}

module _ (r : Reader) (root : Root) where
  -- The URLs of a latest pointer name the key of an artifact.
  abbrev pub IsPointed : File → Str → Type 0
  IsPointed f =
      Exists (λ u. IsArtifactKey (local_key_from_url r u)) (latest_of r (read_file root f.name))

  pub add_latest_files-Adds :
      (files : List File) (live : List Str)
      → Adds (Exists IsPointed files) live (add_latest_files r root files live)
  unfolding add_latest_files
  add_latest_files-Adds [] live = Adds-nil _
  add_latest_files-Adds (f ∷ files) live =
      Adds-cons IsPointed (add_latest_urls-Adds r _ live) (add_latest_files-Adds files _)

  -- The manifest URLs of what was read name the key.
  abbrev pub IsNamed : Option (List Str) → Str → Type 0
  IsNamed o k =
      (urls : List Str) × (o ≡ some urls) × Exists (λ u j. local_key_from_url r u ≡ some j) urls k

  scan_urls-Adds :
      (o : Option (List Str)) (scan : Scan) → Adds (IsNamed o) scan.keys (scan_urls r o scan).keys
  unfolding scan_urls
  scan_urls-Adds none scan = Adds-nothing (λ k h. none_is_some h.1)
    where
      none_is_some : {a : List Str} → ◌≡◌ {A = Option (List Str)} none (some a) → ⊥
      none_is_some e = cc
  scan_urls-Adds (some urls) scan = record {
    from = λ k i. elim (added.from k i) [ inl p ↦ inl (urls, refl, p) | inr j ↦ inr j ];
    into_new = λ k h. added.into_new k (
        subst (λ us. Exists (λ u j. local_key_from_url r u ≡ some j) us k) (sym (some_inj h.1))
          h.2);
    into_old = added.into_old;
  }
    where
      added :
          Adds
            (Exists (λ u j. local_key_from_url r u ≡ some j) urls)
            scan.keys
            (add_urls r urls scan.keys)
      added = add_urls-Adds r urls scan.keys

      some_inj : {b : List Str} → ◌≡◌ {A = Option (List Str)} (some urls) (some b) → urls ≡ b
      some_inj p = cc

  -- The file is a published index that names the key.
  abbrev pub IsScanned : File → Str → Type 0
  IsScanned f k =
      (is_published_index_file f.name ≡ true) × IsNamed (read_index_manifest_urls r root f.name) k

  pub scan_indexes-Adds :
      (files : List File) (scan : Scan)
      → Adds (Exists IsScanned files) scan.keys (scan_indexes r root files scan).keys
  unfolding scan_indexes
  scan_indexes-Adds [] scan = Adds-nil _
  scan_indexes-Adds (f ∷ files) scan = elim (Bool-cases (is_published_index_file f.name)) [
    | inl e ↦ rw (e, scan_indexes) (Adds-cons IsScanned (published e) (scan_indexes-Adds files _))
    | inr e ↦
        rw (e, scan_indexes)
          (Adds-cons IsScanned (Adds-nothing (λ k h. false≢true (sym e ∙ h.0)))
            (scan_indexes-Adds files scan))
  ]
    where
      published :
          is_published_index_file f.name ≡ true
          → Adds
              (IsScanned f)
              scan.keys
              (scan_urls r (read_index_manifest_urls r root f.name) scan).keys
      published e =
          let added = scan_urls-Adds (read_index_manifest_urls r root f.name) scan in
          record {
            from = λ k i. elim (added.from k i) [ inl p ↦ inl (e, p) | inr j ↦ inr j ];
            into_new = λ k h. added.into_new k h.1;
            into_old = added.into_old;
          }

-- The URL is one of those of a manifest of the versions.
abbrev pub IsManifestUrl : List (Option VersionNode) → Str → Type 0
IsManifestUrl versions u =
    (v : VersionNode) × (m : DigestRef) × In (some v) versions × (v.manifest ≡ some m) × In u m.urls

In-append-split : {u : Str} (xs ys : List Str) → In u (xs ++ ys) → In u xs ⊎ In u ys
In-append-split [] ys i = inr i
In-append-split (x ∷ xs) ys i = elim (In-cons i) [
  | inl e ↦ inl (here e)
  | inr j ↦ elim (In-append-split xs ys j) [ inl a ↦ inl (there a) | inr b ↦ inr b ]
]

In-append : {u : Str} (xs ys : List Str) → In u xs ⊎ In u ys → In u (xs ++ ys)
In-append [] ys (inl i) = elim i [ ]
In-append [] ys (inr i) = i
In-append (x ∷ xs) ys (inl i) = elim (In-cons i) [
  | inl e ↦ here e
  | inr j ↦ there (In-append xs ys (inl j))
]
In-append (x ∷ xs) ys (inr i) = there (In-append xs ys (inr i))

ref_urls-In :
    (o : Option DigestRef) {u : Str}
    → In u (ref_urls o)
    → (m : DigestRef) × (o ≡ some m) × In u m.urls
unfolding ref_urls
ref_urls-In none i = elim i [ ]
ref_urls-In (some m) i = (m, refl, i)

pub manifest_urls-IsManifestUrl :
    (versions : List (Option VersionNode)) {u : Str}
    → In u (manifest_urls versions)
    → IsManifestUrl versions u
unfolding manifest_urls ref_urls
manifest_urls-IsManifestUrl [] i = elim i [ ]
manifest_urls-IsManifestUrl (none ∷ rest) i =
    let (v, m, j, e, k) = manifest_urls-IsManifestUrl rest i in (v, m, there j, e, k)
manifest_urls-IsManifestUrl (some v ∷ rest) i =
    elim (In-append-split (ref_urls v.manifest) (manifest_urls rest) i) [
      | inl a ↦ let (m, e, k) = ref_urls-In v.manifest a in (v, m, here refl, e, k)
      | inr b ↦ let (w, m, j, e, k) = manifest_urls-IsManifestUrl rest b in (w, m, there j, e, k)
    ]

pub In-manifest_urls :
    (versions : List (Option VersionNode)) {u : Str} {v : VersionNode} {m : DigestRef}
    → In (some v) versions
    → v.manifest ≡ some m
    → In u m.urls
    → In u (manifest_urls versions)
unfolding manifest_urls ref_urls
In-manifest_urls [] i e j = elim i [ ]
In-manifest_urls (none ∷ rest) i e j = elim (In-cons i) [
  | inl p ↦ absurd (some_is_none p)
  | inr k ↦ In-manifest_urls rest k e j
]
  where
    some_is_none : {w : VersionNode} → ◌≡◌ {A = Option VersionNode} (some w) none → ⊥
    some_is_none p = cc
In-manifest_urls (some w ∷ rest) {u} {v} {m} i e j = elim (In-cons i) [
  | inl p ↦
      In-append (ref_urls w.manifest) (manifest_urls rest)
        (inl (subst (λ o. In u (ref_urls o)) (sym e ∙ ap (λ x. x.manifest) (some_inj p)) j))
  | inr k ↦ In-append (ref_urls w.manifest) (manifest_urls rest) (inr (In-manifest_urls rest k e j))
]
  where
    some_inj : {a b : VersionNode} → ◌≡◌ {A = Option VersionNode} (some a) (some b) → a ≡ b
    some_inj p = cc
