-- ===== src/Library/Coherence.antt =====
-- The active version stays installed, as long as version files agree with the pointer.
use relkit.Prelude.{
  arith, ◌≡◌, ◌≢◌, refl, sym, ◌∙◌, ap, subst, true, false, not, false≢true, Bool-cases, Option,
  none, some, List, [], ◌∷◌, map, ℤ, eqb_ℤ, eqb_ℤ_iff, Str, ◌==◌, eq_iff, In, here, there, In-cons,
  keep-In, In-keep, inl, inr,
}
use relkit.Prelude.Sorting.{sort_by-In}
use relkit.Library.{
  item_from, ActivePointer, VersionMeta, Entry, Tree, InstalledVersion, path_of, plain_item,
  mark_active, item_of, is_version, by_code, list_installed,
}
use relkit.Library.Changes.{without_path, find_version, has_code}

-- The directory of an entry has a version file with the pointer's code, or none.
abbrev pub Agrees : Option ActivePointer → Entry → Type 0
Agrees none e = Unit {0}
Agrees (some a) e =
    path_of e ≡ a.path → (meta : VersionMeta) → e.meta ≡ some meta → meta.code ≡ a.code

-- The active directory is there.
abbrev pub Present : Option ActivePointer → List Entry → Type 0
Present none entries = Unit {0}
Present (some a) entries = (e : Entry) × In e entries × (path_of e ≡ a.path) × (e.is_dir ≡ true)

-- What the pointer names as the previous version, where it is there, is a directory.
abbrev pub HasPrevious : Option ActivePointer → Entry → Type 0
HasPrevious none e = Unit {0}
HasPrevious (some a) e = path_of e ≡ a.previous → e.is_dir ≡ true

-- The active directory is there, its version file agrees with the pointer, the previous one is no
-- file, and no two entries have the same path.
pub record Sound (active : Option ActivePointer) (entries : List Entry) : Type 0 where
  pub present : Present active entries
  pub agrees : (e : Entry) → In e entries → Agrees active e
  pub previous : (e : Entry) → In e entries → HasPrevious active e
  pub once : (e f : Entry) → In e entries → In f entries → path_of e ≡ path_of f → e ≡ f

abbrev pub IsSound : Tree → Type 0
IsSound t = Sound t.active t.entries

In-map :
    (active : Option ActivePointer) (l : List Entry) {v : InstalledVersion}
    → In v (map (item_of active) l)
    → (e : Entry) × In e l × (v ≡ item_of active e)
In-map active [] i = elim i [ ]
In-map active (e ∷ l) i = elim (In-cons i) [
  | inl q ↦ (e, here refl, q)
  | inr j ↦ let (f, k, q) = In-map active l j in (f, there k, q)
]

find-In :
    (code : ℤ) (l : List InstalledVersion) {v : InstalledVersion}
    → find_version code l ≡ some v
    → In v l × (v.code ≡ code)
unfolding find_version
find-In code [] e = cc
find-In code (w ∷ l) {v} e = elim (Bool-cases (eqb_ℤ w.code code)) [
  | inl c ↦
      let same : w ≡ v = some_eq (rw c at e) in
      (
        here (sym same),
        subst (λ (z : InstalledVersion). z.code ≡ code) same ((eqb_ℤ_iff w.code code).0 c),
      )
  | inr n ↦ let (i, c) = find-In code l (rw n at e) in (there i, c)
]
  where
    some_eq : {x y : InstalledVersion} → some x ≡ some y → x ≡ y
    some_eq q = cc

version-dir : (e : Entry) → is_version e ≡ true → e.is_dir ≡ true
unfolding is_version
version-dir e h = ground arith

-- What is found under a code is the item of a directory.
pub listed-Entry :
    (t : Tree) (code : ℤ) {v : InstalledVersion}
    → find_version code (list_installed t).versions ≡ some v
    → (e : Entry) × In e t.entries × (v ≡ item_of t.active e) × (v.code ≡ code) × (e.is_dir ≡ true)
unfolding list_installed
listed-Entry t code f =
    let (i, c) = find-In code (list_installed t).versions f in
    let (e, j, q) = In-map t.active _ (sort_by-In by_code _ i) in
    let (k, d) = keep-In is_version t.entries j in (e, k, q, c, version-dir e d)

path-mark :
    (active : Option ActivePointer) (v : InstalledVersion) → (mark_active active v).path ≡ v.path
unfolding mark_active
path-mark none v = refl
path-mark (some a) v = refl

code-mark :
    (active : Option ActivePointer) (v : InstalledVersion) → (mark_active active v).code ≡ v.code
unfolding mark_active
code-mark none v = refl
code-mark (some a) v = refl

path-from :
    (active : Option ActivePointer) (e : Entry) (o : Option VersionMeta)
    → (item_from active e o).path ≡ path_of e
unfolding item_from plain_item
path-from active e (some m) = refl
path-from none e none = refl
path-from (some a) e none = elim (Bool-cases (a.path == path_of e)) [ inl s ↦ rw s | inr s ↦ rw s ]

pub path-item : (active : Option ActivePointer) (e : Entry) → (item_of active e).path ≡ path_of e
unfolding item_of
path-item active e = path-mark active (item_from active e e.meta) ∙ path-from active e e.meta

-- The active directory is listed under the pointer's code.
code-from :
    (a : ActivePointer) (e : Entry) (o : Option VersionMeta)
    → path_of e ≡ a.path
    → ((m : VersionMeta) → o ≡ some m → m.code ≡ a.code)
    → (item_from (some a) e o).code ≡ a.code
unfolding item_from plain_item
code-from a e (some m) p h = h m refl
code-from a e none p h = rw ((eq_iff a.path (path_of e)).1 (sym p))

code-item :
    (a : ActivePointer) (e : Entry)
    → path_of e ≡ a.path
    → Agrees (some a) e
    → (item_of (some a) e).code ≡ a.code
unfolding item_of
code-item a e p h =
    code-mark (some a) (item_from (some a) e e.meta) ∙ code-from a e e.meta p (λ m q. h p m q)

-- A directory with a version file is listed under the file's code.
pub meta-item :
    (active : Option ActivePointer) (e : Entry) (m : VersionMeta)
    → e.meta ≡ some m
    → (item_of active e).code ≡ m.code
unfolding item_of item_from plain_item
meta-item active e m q =
    code-mark active (item_from active e e.meta) ∙ ap (λ o. (item_from active e o).code) q

In-without :
    (path : Str) (entries : List Entry) (e : Entry)
    → In e entries
    → path_of e ≢ path
    → In e (without_path path entries)
unfolding without_path
In-without path entries e i n =
    In-keep (λ f. not (path_of f == path)) entries i
      (elim (Bool-cases (path_of e == path)) [
        | inl q ↦ absurd (n ((eq_iff (path_of e) path).0 q))
        | inr q ↦ rw q
      ])

without-In :
    (path : Str) (entries : List Entry) (e : Entry)
    → In e (without_path path entries)
    → In e entries
unfolding without_path
without-In path entries e i = (keep-In (λ f. not (path_of f == path)) entries i).0

has_code_same : (c : ℤ) (a : ActivePointer) → c ≡ a.code → has_code c (some a) ≡ true
unfolding has_code
has_code_same c a e = (eqb_ℤ_iff a.code c).1 (sym e)

-- Removing a directory that is listed under a code other than the active one.
pub without-Sound :
    (active : Option ActivePointer) (entries : List Entry) (e : Entry)
    → Sound active entries
    → In e entries
    → has_code (item_of active e).code active ≡ false
    → Sound active (without_path (path_of e) entries)
without-Sound active entries e s i n = record {
  present = there_still active s n;
  agrees = λ f j. s.agrees f (without-In (path_of e) entries f j);
  previous = λ f j. s.previous f (without-In (path_of e) entries f j);
  once = λ f g j k.
      s.once f g (without-In (path_of e) entries f j) (without-In (path_of e) entries g k);
}
  where
    there_still :
        (o : Option ActivePointer)
        → Sound o entries
        → has_code (item_of o e).code o ≡ false
        → Present o (without_path (path_of e) entries)
    there_still none s n = tt
    there_still (some a) s n =
        let (f, j, p, d) = s.present in
        (
          f,
          In-without (path_of e) entries f j (λ q. absurd (
              false≢true (
                sym n
                ∙ has_code_same (item_of (some a) e).code a
                    (code-item a e (sym q ∙ p) (s.agrees e i))))),
          p,
          d,
        )
