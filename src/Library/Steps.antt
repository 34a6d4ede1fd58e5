-- ===== src/Library/Steps.antt =====
-- Whatever is deleted, switched and rolled back, the active version stays installed.
use relkit.Prelude.{
  ◌≢◌, ◌≡◌, refl, sym, ◌∙◌, ap, subst, false, Bool-cases, Option, none, some, List, [], ◌∷◌, ℤ,
  eqb_ℤ, Str, ◌==◌, eq_iff, In, here, there, inl, inr, any,
}
use relkit.Library.{
  true, Bool, ActivePointer, VersionMeta, Entry, Tree, InstalledVersion, path_of, item_of,
  list_installed,
}
use relkit.Library.Changes.{
  previous_path, write_active, Changed, Trashing, gone, left_over, stuck, move_to_trash,
  find_version, has_code, delete_found, delete_installed, find_entry, pointer_to, switch_found,
  switch_active, pointer_back, rollback_found, rollback_from, rollback_active,
}
use relkit.Library.Coherence.{Sound, IsSound, listed-Entry, path-item, meta-item, without-Sound}

no_empty_path : (e : Entry) → path_of e ≢ []
unfolding path_of
no_empty_path e q = cc

trash-Sound :
    (trashing : Trashing) (t : Tree) (e : Entry)
    → IsSound t
    → In e t.entries
    → has_code (item_of t.active e).code t.active ≡ false
    → IsSound (move_to_trash trashing (path_of e) t).1
unfolding move_to_trash
trash-Sound gone t e s i n = without-Sound t.active t.entries e s i n
trash-Sound left_over t e s i n = without-Sound t.active t.entries e s i n
trash-Sound stuck t e s i n = s

delete-Sound :
    (trashing : Trashing) (code : ℤ) (used : List ℤ) (t : Tree)
    → IsSound t
    → IsSound (delete_installed trashing code used t).1
unfolding delete_installed
delete-Sound trashing code used t s = elim (Bool-cases (has_code code t.active)) [
  | inl h ↦ rw h s
  | inr h ↦ elim (Bool-cases (any (λ c. eqb_ℤ c code) used)) [
    | inl k ↦ rw (h, k) s
    | inr k ↦ rw (h, k) (found (find_version code (list_installed t).versions) refl h)
  ]
]
  where
    found :
        (o : Option InstalledVersion)
        → find_version code (list_installed t).versions ≡ o
        → has_code code t.active ≡ false
        → IsSound (delete_found trashing o t).1
    found none e h = unfold delete_found in s
    found (some v) e h =
        let (f, i, q, c, dir) = listed-Entry t code e in
        let path : v.path ≡ path_of f =
          ap (λ (w : InstalledVersion). w.path) q ∙ path-item t.active f in
        let code_eq : code ≡ (item_of t.active f).code =
          sym c ∙ ap (λ (w : InstalledVersion). w.code) q in
        unfold delete_found in
        subst (λ p. IsSound (move_to_trash trashing p t).1) (sym path)
          (trash-Sound trashing t f s i (subst (λ n. has_code n t.active ≡ false) code_eq h))

write-Sound :
    (writes : Bool) (pointer : ActivePointer) (t : Tree)
    → IsSound t
    → Sound (some pointer) t.entries
    → IsSound (write_active writes pointer t).1
unfolding write_active
write-Sound true pointer t s new = new
write-Sound false pointer t s new = s

-- The directory of the active version is no file: it will be the previous one.
active_dir :
    (o : Option ActivePointer) (entries : List Entry) (e : Entry)
    → Sound o entries
    → In e entries
    → (a : ActivePointer) → o ≡ some a
    → path_of e ≡ a.path
    → e.is_dir ≡ true
active_dir none entries e s i a q p = cc
active_dir (some b) entries e s i a q p =
    let (f, j, r, d) = s.present in
    let same : b ≡ a = cc in
    let one : e ≡ f = s.once e f i j (p ∙ ap (λ (z : ActivePointer). z.path) (sym same) ∙ sym r) in
    subst (λ (z : Entry). z.is_dir ≡ true) (sym one) d

switch-Sound :
    (writes : Bool) (code : ℤ) (t : Tree) → IsSound t → IsSound (switch_active writes code t).1
unfolding switch_active previous_path
switch-Sound writes code t s = found (find_version code (list_installed t).versions) refl
  where
    old_dir :
        (o : Option ActivePointer)
        → Sound o t.entries
        → (e : Entry) → In e t.entries
        → path_of e ≡ previous_path o
        → e.is_dir ≡ true
    old_dir none u e i p = absurd (no_empty_path e p)
    old_dir (some a) u e i p = active_dir (some a) t.entries e u i a refl p

    found :
        (o : Option InstalledVersion)
        → find_version code (list_installed t).versions ≡ o
        → IsSound (switch_found writes o t).1
    found none e = unfold switch_found in s
    found (some v) e =
        let (f, i, q, c, dir) = listed-Entry t code e in
        let path : v.path ≡ path_of f =
          ap (λ (w : InstalledVersion). w.path) q ∙ path-item t.active f in
        unfold switch_found in
        write-Sound writes (pointer_to t v) t s (
          unfold pointer_to in
          record {
            present = (f, i, sym path, dir);
            agrees = λ g j p m h.
                let same : g ≡ f = s.once g f j i (p ∙ path) in
                let of_f = ap (λ (z : Entry). z.meta) (sym same) ∙ h in
                sym (ap (λ (w : InstalledVersion). w.code) q ∙ meta-item t.active f m of_f);
            previous = λ g j p. old_dir t.active s g j p;
            once = s.once;
          })

find_entry-In :
    (path : Str) (l : List Entry) {e : Entry}
    → find_entry path l ≡ some e
    → In e l × (path_of e ≡ path)
unfolding find_entry
find_entry-In path [] q = cc
find_entry-In path (f ∷ l) {e} q = elim (Bool-cases (path_of f == path)) [
  | inl p ↦
      let same : f ≡ e = some_eq (rw p at q) in
      (here (sym same), subst (λ z. path_of z ≡ path) same ((eq_iff (path_of f) path).0 p))
  | inr n ↦ let (i, p) = find_entry-In path l (rw n at q) in (there i, p)
]
  where
    some_eq : {x y : Entry} → some x ≡ some y → x ≡ y
    some_eq q = cc

back-path :
    (cur : ActivePointer) (o : Option VersionMeta) → (pointer_back cur o).path ≡ cur.previous
unfolding pointer_back
back-path cur (some m) = refl
back-path cur none = refl

back-code :
    (cur : ActivePointer) (o : Option VersionMeta) (m : VersionMeta)
    → o ≡ some m
    → m.code ≡ (pointer_back cur o).code
unfolding pointer_back
back-code cur (some n) m e = ap (λ (z : VersionMeta). z.code) (sym (some_eq e))
  where
    some_eq : {x y : VersionMeta} → some x ≡ some y → x ≡ y
    some_eq q = cc
back-code cur none m e = cc

back-previous :
    (cur : ActivePointer) (o : Option VersionMeta) → (pointer_back cur o).previous ≡ cur.path
unfolding pointer_back
back-previous cur (some m) = refl
back-previous cur none = refl

rollback-Sound : (writes : Bool) (t : Tree) → IsSound t → IsSound (rollback_active writes t).1
unfolding rollback_active
rollback-Sound writes t s = from t.active refl
  where
    back :
        (cur : ActivePointer) (o : Option Entry)
        → t.active ≡ some cur
        → find_entry cur.previous t.entries ≡ o
        → IsSound (rollback_found writes cur o t).1
    back cur none a e = unfold rollback_found in s
    back cur (some f) a e =
        let (i, p) = find_entry-In cur.previous t.entries e in
        let now = subst (λ o. Sound o t.entries) a s in
        unfold rollback_found in
        write-Sound writes (pointer_back cur f.meta) t s (record {
          present = (f, i, p ∙ sym (back-path cur f.meta), now.previous f i p);
          agrees = λ g j q m h.
              let same : g ≡ f = s.once g f j i (q ∙ back-path cur f.meta ∙ sym p) in
              back-code cur f.meta m (ap (λ (z : Entry). z.meta) (sym same) ∙ h);
          previous = λ g j q.
              active_dir (some cur) t.entries g now j cur refl (q ∙ back-previous cur f.meta);
          once = s.once;
        })

    from : (o : Option ActivePointer) → t.active ≡ o → IsSound (rollback_from writes o t).1
    from none a = unfold rollback_from in s
    from (some cur) a =
        unfold rollback_from in
        (elim (Bool-cases (cur.previous == [])) [
          | inl e ↦ rw e s
          | inr e ↦ rw e (back cur (find_entry cur.previous t.entries) a refl)
        ])

-- What a host may ask for.
pub data Request : Type 0 where
  delete : Trashing → ℤ → List ℤ → Request
  switch : Bool → ℤ → Request
  rollback : Bool → Request

unfoldable pub serve : Request → Tree → Changed
serve (delete trashing code used) t = delete_installed trashing code used t
serve (switch writes code) t = switch_active writes code t
serve (rollback writes) t = rollback_active writes t

unfoldable pub serve_all : List Request → Tree → Tree
serve_all [] t = t
serve_all (r ∷ rest) t = serve_all rest (serve r t).1

-- If the directory that the active pointer names is there, its version file, if it has one, has
-- the pointer's code, what the pointer names as the previous version is a directory where it is
-- there, and no two entries of `versions/` have the same path, then all this still holds after
-- any sequence of `deleteInstalled`, `switchActive` and `rollbackActive`, failed removals and
-- failed writes of the pointer included: the active directory is never lost.
pub serve_all-IsSound :
    (requests : List Request) (t : Tree) → IsSound t → IsSound (serve_all requests t)
unfolding serve_all serve
serve_all-IsSound [] t s = s
serve_all-IsSound (delete trashing code used ∷ rest) t s =
    serve_all-IsSound rest _ (delete-Sound trashing code used t s)
serve_all-IsSound (switch writes code ∷ rest) t s =
    serve_all-IsSound rest _ (switch-Sound writes code t s)
serve_all-IsSound (rollback writes ∷ rest) t s =
    serve_all-IsSound rest _ (rollback-Sound writes t s)
