-- ===== src/Publish/Orphans.antt =====
-- The blobs that are deleted are those of digests that no channel names.
use relkit.Prelude.{
  Bool, true, false, Option, none, some, List, [], ◌∷◌, Str, ◌==◌, ◌≡◌, ◌⊎◌, inl, inr, refl, sym,
  ◌∙◌, ap, subst, In, here, there, In-cons, Bool-cases, false≢true, if◌then◌else◌, is_empty,
}
use relkit.Prelude.Sets.{contains, add_key, contains-In, In-contains, In-add_key, In-add_key_old}
use relkit.Rup.{Index, VersionNode}
use relkit.Store.Keys.{cas_key}
use relkit.Publish.CasGc.{
  Shelf, digests_from_manifest, add_all, Marking, mark_version, mark_nodes, mark_index, index_on,
  mark_channels, live_artifact_digests, digests_from_nodes, delete_key, delete_orphans,
  sweep_orphan_cas,
}

In-add_all : (digests live : List Str) {d : Str} → In d digests → In d (add_all digests live)
unfolding add_all
In-add_all [] live i = elim i [ ]
In-add_all (x ∷ digests) live {d} i = elim (In-cons i) [
  | inl e ↦ old digests _ (subst (λ y. In d (add_key y live)) e (In-add_key d live))
  | inr j ↦ In-add_all digests _ j
]
  where
    old : (ds ls : List Str) → In d ls → In d (add_all ds ls)
    old [] ls j = j
    old (y ∷ ds) ls j = old ds _ (In-add_key_old y ls j)

In-add_all_old : (digests live : List Str) {d : Str} → In d live → In d (add_all digests live)
unfolding add_all
In-add_all_old [] live i = i
In-add_all_old (x ∷ digests) live i = In-add_all_old digests _ (In-add_key_old x live i)

module _ (s : Shelf) where
  -- What was seen is marked, and `after` has all that `before` has.
  record IsMarked (m : Marking) : Type 0 where
    marked : (v d : Str) → In v m.seen → In d (digests_from_manifest s v) → In d m.live

  record Grows (before after : Marking) : Type 0 where
    grows : (d : Str) → In d before.live → In d after.live
    keeps_marks : IsMarked before → IsMarked after

  Grows-refl : (m : Marking) → Grows m m
  Grows-refl m = record { grows = λ d i. i; keeps_marks = λ k. k }

  Grows-trans : {a b c : Marking} → Grows a b → Grows b c → Grows a c
  Grows-trans p q = record {
    grows = λ d i. q.grows d (p.grows d i);
    keeps_marks = λ k. q.keeps_marks (p.keeps_marks k);
  }

  mark_version-Grows : (v : Str) (m : Marking) → Grows m (mark_version s v m)
  unfolding mark_version
  mark_version-Grows v m = go (v == []) (contains v m.seen)
    where
      added : Marking
      added = record { seen = v ∷ m.seen; live = add_all (digests_from_manifest s v) m.live }

      new : Grows m added
      new = record {
        grows = λ d i. In-add_all_old (digests_from_manifest s v) m.live i;
        keeps_marks = λ k. record {
          marked = λ w d i j. elim (In-cons i) [
            | inl e ↦
                In-add_all (digests_from_manifest s v) m.live
                  (subst (λ x. In d (digests_from_manifest s x)) e j)
            | inr l ↦ In-add_all_old (digests_from_manifest s v) m.live (k.marked w d l j)
          ];
        };
      }

      go : (a b : Bool) → Grows m (if a then m else if b then m else added)
      go true b = Grows-refl m
      go false true = Grows-refl m
      go false false = new

  mark_version-live :
      (v d : Str) (m : Marking)
      → IsMarked m
      → (v == []) ≡ false
      → In d (digests_from_manifest s v)
      → In d (mark_version s v m).live
  unfolding mark_version
  mark_version-live v d m k n j = elim (Bool-cases (contains v m.seen)) [
    | inl e ↦ rw (n, e) (k.marked v d (contains-In v m.seen e) j)
    | inr e ↦ rw (n, e) (In-add_all (digests_from_manifest s v) m.live j)
  ]

  mark_nodes-Grows :
      (nodes : List (Option VersionNode)) (m : Marking) → Grows m (mark_nodes s nodes m)
  unfolding mark_nodes
  mark_nodes-Grows [] m = Grows-refl m
  mark_nodes-Grows (none ∷ rest) m = mark_nodes-Grows rest m
  mark_nodes-Grows (some node ∷ rest) m =
      Grows-trans (mark_version-Grows node.version m) (mark_nodes-Grows rest _)

  mark_nodes-live :
      (nodes : List (Option VersionNode)) (node : VersionNode) (d : Str) (m : Marking)
      → IsMarked m
      → In (some node) nodes
      → (node.version == []) ≡ false
      → In d (digests_from_manifest s node.version)
      → In d (mark_nodes s nodes m).live
  unfolding mark_nodes
  mark_nodes-live [] node d m k i n j = elim i [ ]
  mark_nodes-live (none ∷ rest) node d m k i n j = elim (In-cons i) [
    | inl e ↦ absurd (some_is_none e)
    | inr l ↦ mark_nodes-live rest node d m k l n j
  ]
    where
      some_is_none : {w : VersionNode} → ◌≡◌ {A = Option VersionNode} (some w) none → ⊥
      some_is_none p = cc
  mark_nodes-live (some w ∷ rest) node d m k i n j = elim (In-cons i) [
    | inl e ↦ (mark_nodes-Grows rest _).grows d (
        subst (λ x. In d (mark_version s x.version m).live) (some_inj e)
          (mark_version-live node.version d m k n j))
    | inr l ↦ mark_nodes-live rest node d _ ((mark_version-Grows w.version m).keeps_marks k) l n j
  ]
    where
      some_inj : {a b : VersionNode} → ◌≡◌ {A = Option VersionNode} (some a) (some b) → a ≡ b
      some_inj p = cc

  mark_index-Grows : (o : Option Index) (m : Marking) → Grows m (mark_index s o m)
  unfolding mark_index
  mark_index-Grows none m = Grows-refl m
  mark_index-Grows (some index) m = mark_nodes-Grows index.versions m

  mark_channels-Grows :
      (published : Option Index) (channels : List Str) (m : Marking)
      → Grows m (mark_channels s published channels m)
  unfolding mark_channels
  mark_channels-Grows published [] m = Grows-refl m
  mark_channels-Grows published (channel ∷ channels) m =
      Grows-trans (mark_index-Grows (index_on s published channel) m)
        (mark_channels-Grows published channels _)

  mark_index-live :
      (o : Option Index) (index : Index) (node : VersionNode) (d : Str) (m : Marking)
      → IsMarked m
      → o ≡ some index
      → In (some node) index.versions
      → (node.version == []) ≡ false
      → In d (digests_from_manifest s node.version)
      → In d (mark_index s o m).live
  unfolding mark_index
  mark_index-live o index node d m k e i n j =
      rw (e, mark_index) (mark_nodes-live index.versions node d m k i n j)

  mark_channels-live :
      (published : Option Index) (channels : List Str) (channel : Str) (index : Index)
      (node : VersionNode) (d : Str) (m : Marking)
      → IsMarked m
      → In channel channels
      → index_on s published channel ≡ some index
      → In (some node) index.versions
      → (node.version == []) ≡ false
      → In d (digests_from_manifest s node.version)
      → In d (mark_channels s published channels m).live
  unfolding mark_channels
  mark_channels-live published [] channel index node d m k c e i n j = elim c [ ]
  mark_channels-live published (x ∷ channels) channel index node d m k c e i n j =
      elim (In-cons c) [
        | inl q ↦ (mark_channels-Grows published channels _).grows d (
            mark_index-live (index_on s published x) index node d m k
              (subst (λ y. index_on s published y ≡ some index) q e) i n j)
        | inr l ↦
            mark_channels-live published channels channel index node d _
              ((mark_index-Grows (index_on s published x) m).keeps_marks k) l e i n j
      ]

  -- A channel of the product still lists a version whose manifest names the digest.
  pub data IsNamed (published : Option Index) (d : Str) : Type 0 where
    by_version :
        (channel : Str) (index : Index) (node : VersionNode)
        → In channel s.channels
        → index_on s published channel ≡ some index
        → In (some node) index.versions
        → (node.version == []) ≡ false
        → In d (digests_from_manifest s node.version)
        → IsNamed published d

  named-live :
      (published : Option Index) (staged : List Str) (d : Str)
      → IsNamed published d
      → In d (live_artifact_digests s published staged)
  unfolding live_artifact_digests
  named-live published staged d (by_version channel index node c e i n j) =
      mark_channels-live published s.channels channel index node d _
        (record { marked = λ v x l w. elim l [ ] }) c e i n j

  -- The digest of a deleted key.
  delete_orphans-digest :
      (live digests : List Str) (key : Str)
      → In key (delete_orphans s live digests)
      → (d : Str) × In d digests × (cas_key d ≡ some key) × (contains d live ≡ false)
  unfolding delete_orphans delete_key
  delete_orphans-digest live [] key i = elim i [ ]
  delete_orphans-digest live (x ∷ digests) key i = elim (Bool-cases (contains x live)) [
    | inl e ↦
        let (d, j, c, a) = delete_orphans-digest live digests key (rw (e, delete_orphans) at i) in
        (d, there j, c, a)
    | inr e ↦
        elim (deleted (cas_key x) (delete_orphans s live digests) (rw (e, delete_orphans) at i)) [
          | inl c ↦ (x, here refl, c, e)
          | inr l ↦
              let (d, j, c, a) = delete_orphans-digest live digests key l in (d, there j, c, a)
        ]
  ]
    where
      deleted :
          (o : Option Str) (more : List Str)
          → In key (delete_key s o more)
          → (o ≡ some key) ⊎ In key more
      deleted none more j = inr j
      deleted (some k) more j = elim (Bool-cases (s.bucket.deletes k)) [
        | inl h ↦ elim (In-cons (rw (h, delete_key) at j)) [
          | inl q ↦ inl (ap some (sym q))
          | inr l ↦ inr l
        ]
        | inr h ↦ inr (rw (h, delete_key) at j)
      ]

  -- The key of a digest that a pruned version named and that no channel names.
  pub record IsOrphan (published : Option Index) (pruned : List (Option VersionNode)) (key : Str)
      : Type 0 where
    pub digest : Str
    pub was_pruned : In digest (digests_from_nodes s pruned)
    pub names_key : cas_key digest ≡ some key
    pub not_named : IsNamed published digest → ⊥

  -- Each key that `sweepOrphanCAS` deletes on a backend is that of a digest that the manifest of
  -- a pruned version names, and that no channel of the product names: no version of an index that
  -- was just published or that can be read has a readable manifest with that digest.
  pub sweep_orphan_cas-IsOrphan :
      (published : Option Index) (pruned : List (Option VersionNode)) (staged : List Str)
      (key : Str)
      → In key (sweep_orphan_cas s published pruned staged)
      → IsOrphan published pruned key
  unfolding sweep_orphan_cas
  sweep_orphan_cas-IsOrphan published pruned staged key i = elim (Bool-cases (is_empty pruned)) [
    | inl e ↦ elim (rw (e, sweep_orphan_cas) at i) [ ]
    | inr e ↦
        let (d, j, c, a) =
          delete_orphans-digest (live_artifact_digests s published staged)
            (digests_from_nodes s pruned) key (rw (e, sweep_orphan_cas) at i) in
        record {
          digest = d;
          was_pruned = j;
          names_key = c;
          not_named = λ h. false≢true (sym a ∙ In-contains d _ (named-live published staged d h));
        }
  ]
