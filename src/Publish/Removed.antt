-- ===== src/Publish/Removed.antt =====
-- The index that takes the place of the one from which a version was removed.
use relkit.Prelude.{
  Bool, true, false, not, ◌&&◌, Option, none, some, List, [], ◌∷◌, map, ℤ, pos, Str, ◌≡◌, ◌≢◌, ◌↔◌,
  inl, inr, refl, sym, ◌∙◌, ap, subst, In, Bool-cases, if◌then◌else◌, any, is_empty, ltb_ℤ,
}
use relkit.Prelude.Results.{Result, ok, err}
use relkit.Rup.{Index, VersionNode}
use relkit.Wire.{Envelope}
use relkit.Envelope.{seal}
use relkit.Chain.{find_head}
use relkit.Chain.Reachability.{validate_reachability}
use relkit.Chain.Reachability.Sound.{Serves, validate-Serves}
use relkit.Publish.{
  no_commit, unreachable, rejected, Backend, PublishError, next_sequence, sorted_nodes, index_with,
  new_index, min_supported_ptr, trusted_keys, read_existing_indexes, bad_identifier, bad_sequence,
  no_versions, check_identifier,
}
use relkit.Publish.Unpublish.{
  clients_can_verify, put_pointer, Config, kept_versions, validate_index, validate_new, rebuild,
  Unpublished, commit, seal_and_commit, write_index, remove_from, unpublish_on_backends,
}
use relkit.Publish.Others.{
  Follows, err_is_ok, ok_inj, kept_versions-IsOther, sorted_nodes-In, next_sequence-Follows,
}

-- What a removal that is committed has done.
pub record IsRemoved (c : Config) (version : Str) (now : Str) (backends : List Backend)
    (rebuilt : Index) : Type 0 where
  pub existing : Index
  pub base : ℤ
  pub was_read :
      read_existing_indexes c.wire
        (trusted_keys c.wire c.trusted c.signers)
        c.product
        c.channel
        now
        backends
      ≡ ok (existing, base)
  pub goes_on : Follows base rebuilt.sequence
  pub keeps_others :
      (v : VersionNode)
      → In (some v) rebuilt.versions ↔ (In (some v) existing.versions × (v.version ≢ version))
  pub head : VersionNode
  pub has_head : find_head rebuilt ≡ some head
  pub serves : Serves rebuilt head

-- The rebuilt index: its versions, its sequence, and that the check found nothing.
record IsRebuilt (base : ℤ) (kept : List (Option VersionNode)) (index : Index) : Type 0 where
  numbered : index.sequence ≡ next_sequence base
  versions_are : index.versions ≡ sorted_nodes kept
  checked : (validate_reachability index).0 ≡ []

index_with-parts :
    (product channel : Str) (sequence : ℤ) (versions : List (Option VersionNode)) (m : Option ℤ)
    (now : Str)
    → ((index_with product channel sequence versions m now).sequence ≡ sequence)
      × ((index_with product channel sequence versions m now).versions ≡ sorted_nodes versions)
unfolding index_with
index_with-parts product channel sequence versions none now = (refl, refl)
index_with-parts product channel sequence versions (some m) now = (refl, refl)

new_index-index_with :
    (product channel : Str) (sequence : ℤ) (versions : List (Option VersionNode)) (m : Option ℤ)
    (now : Str) (index : Index)
    → new_index product channel sequence versions m now ≡ ok index
    → index_with product channel sequence versions m now ≡ index
unfolding new_index
new_index-index_with product channel sequence versions m now index e =
    go (not (check_identifier product && check_identifier channel)) (ltb_ℤ sequence (pos 1))
      (is_empty versions) e
  where
    go :
        (a b d : Bool)
        → ◌≡◌ {A = Result PublishError Index}
            (if a
              then err bad_identifier
              else if b
              then err bad_sequence
              else if d
              then err no_versions
              else ok (index_with product channel sequence versions m now))
            (ok index)
        → index_with product channel sequence versions m now ≡ index
    go true b d p = absurd (err_is_ok p)
    go false true d p = absurd (err_is_ok p)
    go false false true p = absurd (err_is_ok p)
    go false false false p = ok_inj p

validate_new-parts :
    (r : Result PublishError Index) (index : Index)
    → validate_new r ≡ ok index
    → (r ≡ ok index) × ((validate_reachability index).0 ≡ [])
unfolding validate_new validate_index
validate_new-parts (err x) index e = absurd (err_is_ok e)
validate_new-parts (ok new) index e = go (validate_reachability new).0 refl e
  where
    go :
        (errors : List Str)
        → (validate_reachability new).0 ≡ errors
        → ◌≡◌ {A = Result PublishError Index}
            (if is_empty errors then ok new else err unreachable)
            (ok index)
        → (◌≡◌ {A = Result PublishError Index} (ok new) (ok index))
          × ((validate_reachability index).0 ≡ [])
    go [] q p = (p, subst (λ i. (validate_reachability i).0 ≡ []) (ok_inj p) q)
    go (_ ∷ _) q p = absurd (err_is_ok p)

rebuild-IsRebuilt :
    (c : Config) (now : Str) (existing : Index) (base : ℤ) (kept : List (Option VersionNode))
    (index : Index)
    → rebuild c now existing base (ok kept) ≡ ok index
    → IsRebuilt base kept index
unfolding rebuild
rebuild-IsRebuilt c now existing base kept index e =
    let (q, v) = validate_new-parts _ index e in
    let same =
      new_index-index_with c.product c.channel (next_sequence base) kept
        (min_supported_ptr existing) now index q in
    let (n, w) =
      index_with-parts c.product c.channel (next_sequence base) kept (min_supported_ptr existing)
        now in
    record {
      numbered = sym (ap (λ i. i.sequence) same) ∙ n;
      versions_are = sym (ap (λ i. i.versions) same) ∙ w;
      checked = v;
    }

-- A commit writes what was rebuilt.
commit-index :
    (c : Config) (index rebuilt : Index) (env : Envelope) (backends : List Backend)
    → (commit c index env backends).0 ≡ ok (some rebuilt)
    → index ≡ rebuilt
unfolding commit
commit-index c index rebuilt env backends e =
    go (not (clients_can_verify c env)) (any (λ b. b.accepts) backends) e
  where
    some_inj : {a b : Index} → ◌≡◌ {A = Option Index} (some a) (some b) → a ≡ b
    some_inj p = cc

    go :
        (a b : Bool)
        → (◌≡◌ {A = Result PublishError (Option Index)}
            (if◌then◌else◌ {A = Unpublished} a
              (err rejected, backends)
              (if b
                then (ok (some index), map (put_pointer (c.marshal_envelope env)) backends)
                else (err no_commit, backends))).0
            (ok (some rebuilt)))
        → index ≡ rebuilt
    go true b p = absurd (err_is_ok p)
    go false true p = some_inj (ok_inj p)
    go false false p = absurd (err_is_ok p)

sealed-index :
    (c : Config) (index rebuilt : Index) (o : Option Envelope) (backends : List Backend)
    → (seal_and_commit c index o backends).0 ≡ ok (some rebuilt)
    → index ≡ rebuilt
unfolding seal_and_commit
sealed-index c index rebuilt none backends e = absurd (err_is_ok e)
sealed-index c index rebuilt (some env) backends e = commit-index c index rebuilt env backends e

written-index :
    (c : Config) (r : Result PublishError Index) (rebuilt : Index) (backends : List Backend)
    → (write_index c r backends).0 ≡ ok (some rebuilt)
    → r ≡ ok rebuilt
unfolding write_index
written-index c (err x) rebuilt backends e = absurd (err_is_ok e)
written-index c (ok index) rebuilt backends e =
    ap ok (sealed-index c index rebuilt (seal c.wire index c.signers) backends e)

module _ (c : Config) (version now : Str) (backends : List Backend) (rebuilt : Index) where
  rebuilt-IsRemoved :
      (existing : Index) (base : ℤ) (k : Result PublishError (List (Option VersionNode)))
      → read_existing_indexes c.wire
          (trusted_keys c.wire c.trusted c.signers)
          c.product
          c.channel
          now
          backends
        ≡ ok (existing, base)
      → kept_versions version existing.versions ≡ k
      → rebuild c now existing base k ≡ ok rebuilt
      → IsRemoved c version now backends rebuilt
  unfolding rebuild
  rebuilt-IsRemoved existing base (err x) q w e = absurd (err_is_ok e)
  rebuilt-IsRemoved existing base (ok kept) q w e =
      let new = rebuild-IsRebuilt c now existing base kept rebuilt e in
      let other = kept_versions-IsOther version existing.versions kept w in
      let (h, f, s) = validate-Serves rebuilt new.checked in
      record {
        existing = existing;
        base = base;
        was_read = q;
        goes_on = subst (Follows base) (sym new.numbered) (next_sequence-Follows base);
        keeps_others = λ v. (
          (λ i.
              (other v).0
                ((sorted_nodes-In kept v).0 (subst (λ vs. In (some v) vs) new.versions_are i))),
          (λ p.
              subst (λ vs. In (some v) vs) (sym new.versions_are)
                ((sorted_nodes-In kept v).1 ((other v).1 p))),
        );
        head = h;
        has_head = f;
        serves = s;
      }

  remove_from-IsRemoved :
      (r : Result PublishError (Index × ℤ))
      → read_existing_indexes c.wire
          (trusted_keys c.wire c.trusted c.signers)
          c.product
          c.channel
          now
          backends
        ≡ r
      → (remove_from c version false now r backends).0 ≡ ok (some rebuilt)
      → IsRemoved c version now backends rebuilt
  unfolding remove_from
  remove_from-IsRemoved (err x) q e = absurd (err_is_ok e)
  remove_from-IsRemoved (ok existing) q e =
      rebuilt-IsRemoved existing.0 existing.1 (kept_versions version existing.0.versions) q refl
        (written-index c _ rebuilt backends e)

  -- If an `Unpublish` that is not a dry run commits an index, that index lists exactly the
  -- versions of the index that was read from the backends, without the one to remove; its
  -- sequence is above the one read, unless that is the greatest 64-bit integer, where the new one
  -- is 1000, or an integer beyond 64 bits; and it has a head h such that every code is listed
  -- once and every client below h whose code is at or above a listed code or the minimum can get
  -- to h by legal hops.
  pub unpublish-IsRemoved :
      (unpublish_on_backends c version false now backends).0 ≡ ok (some rebuilt)
      → IsRemoved c version now backends rebuilt
  unfolding unpublish_on_backends
  unpublish-IsRemoved e = elim (Bool-cases (any (λ b. not b.writable) backends)) [
    | inl w ↦ absurd (err_is_ok (rw (w, unpublish_on_backends) at e))
    | inr w ↦
        remove_from-IsRemoved
          (read_existing_indexes c.wire (trusted_keys c.wire c.trusted c.signers) c.product
            c.channel now backends)
          refl (rw (w, unpublish_on_backends) at e)
  ]
