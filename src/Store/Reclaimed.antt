-- ===== src/Store/Reclaimed.antt =====
-- What a round of removals takes away.
use mathlib.Core.List.{reverse, reverse_aux}
use relkit.Prelude.{
  any-false, Bool, true, false, not, Option, none, some, List, [], ◌∷◌, ◌++◌, ℤ, Str, str, ◌==◌,
  ◌≡◌, ◌⊎◌, inl, inr, In, here, there, In-cons, refl, sym, subst, ◌∙◌, Bool-cases, keep, keep-In,
  In-keep, false≢true, if◌then◌else◌, any, any-In, In-any, ◌&&◌, eq_of_==,
}
use relkit.Prelude.Text.{has_prefix}
use relkit.Prelude.Results.{Result, ok, err}
use relkit.Store.Keys.{File, Dir, Root, Reader, list_files_under}
use relkit.Store.Live.{GcError, live_keys}
use relkit.Prelude.Sets.{contains, contains-In}
use relkit.Store.Referenced.{IsNeeded}
use relkit.Store.Needed.{live_keys-IsNeeded}
use relkit.Store.Kept.{remove_empty_dirs-files}
use relkit.Store.Sweep.{
  is_bare, GcState, GcResult, is_temp, is_spared, is_removed, cas_protected, remove_dir,
  remove_bare, remove_empty_dirs, goes, without_removed, sweep_listed, sweep_prefixes,
  swept_prefixes, gc_with, gc_once,
}

abbrev pub HasDir : Str → Root → Type 0
HasDir name root = any (λ d. d.dir_name == name) root.dirs ≡ true

-- Directories that are below another stay while empty ones are removed there.
remove_bare-HasDir :
    (name : Str) (dirs : List Dir) (root : Root)
    → any (λ d. d.dir_name == name) dirs ≡ false
    → HasDir name root
    → HasDir name (remove_bare dirs root).1
unfolding remove_bare remove_dir
remove_bare-HasDir name [] root e h = h
remove_bare-HasDir name (d ∷ dirs) root e h =
    remove_bare-HasDir name dirs
      (if is_bare root d.dir_name && not d.dir_held then remove_dir d root else root)
      (others (Bool-cases (d.dir_name == name))) (stays (is_bare root d.dir_name && not d.dir_held))
  where
    others :
        ((d.dir_name == name) ≡ true) ⊎ ((d.dir_name == name) ≡ false)
        → any (λ x. x.dir_name == name) dirs ≡ false
    others (inl p) = absurd (false≢true (sym (rw p at e)))
    others (inr p) = rw p at e

    differs : (x : Dir) → (x.dir_name == name) ≡ true → (x.dir_name == d.dir_name) ≡ false
    differs x p = elim (Bool-cases (x.dir_name == d.dir_name)) [
      | inl q ↦ absurd (
          false≢true (
            sym (any-false (λ y. y.dir_name == name) (d ∷ dirs) e (here refl))
            ∙ subst (λ n. (n == name) ≡ true) (eq_of_== _ _ q) p))
      | inr q ↦ q
    ]

    stays : (b : Bool) → HasDir name (if b then remove_dir d root else root)
    stays true =
        let (x, i, p) = any-In (λ y. y.dir_name == name) root.dirs h in
        In-any (λ y. y.dir_name == name) _
          (In-keep (λ y. not (y.dir_name == d.dir_name)) root.dirs i (rw (differs x p))) p
    stays false = h

reverse_aux-In :
    {A : Type 0} {a : A} (xs ys : List A) → In a (reverse_aux xs ys) → In a xs ⊎ In a ys
reverse_aux-In [] ys i = inr i
reverse_aux-In (x ∷ xs) ys i = elim (reverse_aux-In xs (x ∷ ys) i) [
  | inl j ↦ inl (there j)
  | inr j ↦ elim (In-cons j) [ inl e ↦ inl (here e) | inr k ↦ inr k ]
]

reverse-In : {A : Type 0} {a : A} (xs : List A) → In a (reverse xs) → In a xs
reverse-In xs i = elim (reverse_aux-In xs [] i) [ inl j ↦ j | inr j ↦ elim j [ ] ]

remove_empty_dirs-HasDir :
    (name prefix : Str) (root : Root)
    → has_prefix name (prefix ++ str "/") ≡ false
    → HasDir name root
    → HasDir name (remove_empty_dirs prefix root).1
unfolding remove_empty_dirs
remove_empty_dirs-HasDir name prefix root apart h =
    remove_bare-HasDir name _ root
      (elim (Bool-cases (any (λ d. d.dir_name == name) below)) [
        | inl found ↦ absurd (never found)
        | inr absent ↦ absent
      ])
      h
  where
    below : List Dir
    below = reverse (keep (λ d. has_prefix d.dir_name (prefix ++ str "/")) root.dirs)

    never : any (λ d. d.dir_name == name) below ≡ true → ⊥
    never found =
        let (d, i, e) = any-In (λ x. x.dir_name == name) below found in
        let under =
          (keep-In (λ x. has_prefix x.dir_name (prefix ++ str "/")) root.dirs (reverse-In _ i)).1 in
        false≢true
          (sym apart ∙ subst (λ n. has_prefix n (prefix ++ str "/") ≡ true) (eq_of_== _ _ e) under)

list_files_under-some :
    (name : Str) (root : Root)
    → HasDir name root
    → (files : List File) × (list_files_under root name ≡ some files)
unfolding list_files_under
list_files_under-some name root h =
    (keep (λ f. has_prefix f.name (name ++ str "/")) root.files, rw h refl)

module _ (g : Option GcState) (now : ℤ) (live : List Str) where
  sweep_listed-subset :
      (prefix : Str) (o : Option (List File)) (result : GcResult) (root : Root) {f : File}
      → In f (sweep_listed g now live prefix o result root).1.files
      → In f root.files
  unfolding sweep_listed without_removed
  sweep_listed-subset prefix none result root i = i
  sweep_listed-subset prefix (some files) result root {f} i =
      (keep-In _ root.files (subst (λ fs. In f fs) (remove_empty_dirs-files prefix _) i)).0

  sweep_prefixes-subset :
      (prefixes : List Str) (result : GcResult) (root : Root) {f : File}
      → In f (sweep_prefixes g now live prefixes result root).1.files
      → In f root.files
  unfolding sweep_prefixes
  sweep_prefixes-subset [] result root i = i
  sweep_prefixes-subset (prefix ∷ prefixes) result root i =
      sweep_listed-subset prefix (list_files_under root prefix) result root
        (sweep_prefixes-subset prefixes _ _ i)

  sweep_listed-removes :
      (prefix : Str) (files : List File) (result : GcResult) (root : Root) {f : File}
      → In f (sweep_listed g now live prefix (some files) result root).1.files
      → goes g now live prefix f ≡ false
  unfolding sweep_listed without_removed
  sweep_listed-removes prefix files result root {f} i =
      let kept =
        (keep-In _ root.files (subst (λ fs. In f fs) (remove_empty_dirs-files prefix _) i)).1 in
      elim (Bool-cases (goes g now live prefix f)) [
        | inl e ↦ absurd (false≢true (rw e at kept))
        | inr e ↦ e
      ]

  sweep_listed-HasDir :
      (name prefix : Str) (o : Option (List File)) (result : GcResult) (root : Root)
      → has_prefix name (prefix ++ str "/") ≡ false
      → HasDir name root
      → HasDir name (sweep_listed g now live prefix o result root).1
  unfolding sweep_listed without_removed
  sweep_listed-HasDir name prefix none result root apart h = h
  sweep_listed-HasDir name prefix (some files) result root apart h =
      remove_empty_dirs-HasDir name prefix _ apart h

  pub sweep_prefixes-removes :
      (prefixes : List Str) (name : Str) (result : GcResult) (root : Root) {f : File}
      → In name prefixes
      → ((q : Str) → In q prefixes → has_prefix name (q ++ str "/") ≡ false)
      → HasDir name root
      → In f (sweep_prefixes g now live prefixes result root).1.files
      → goes g now live name f ≡ false
  unfolding sweep_prefixes
  sweep_prefixes-removes [] name result root n apart h i = elim n [ ]
  sweep_prefixes-removes (q ∷ prefixes) name result root {f} n apart h i = elim (In-cons n) [
    | inl e ↦
        let (files, some_files) = list_files_under-some q root (subst (λ m. HasDir m root) e h) in
        subst (λ m. goes g now live m f ≡ false) (sym e)
          (sweep_listed-removes q files result root (
            subst (λ o. In f (sweep_listed g now live q o result root).1.files) some_files
              (sweep_prefixes-subset prefixes _ _ i)))
    | inr later ↦
        sweep_prefixes-removes prefixes name _ _ later (λ p j. apart p (there j))
          (sweep_listed-HasDir name q (list_files_under root q) result root (apart q (here refl)) h)
          i
  ]

apart :
    (p q : Str) → In p swept_prefixes → In q swept_prefixes → has_prefix p (q ++ str "/") ≡ false
unfolding swept_prefixes has_prefix
apart p q (here e) (here d) = rw (e, d) refl
apart p q (here e) (there (here d)) = rw (e, d) refl
apart p q (here e) (there (there (here d))) = rw (e, d) refl
apart p q (there (here e)) (here d) = rw (e, d) refl
apart p q (there (here e)) (there (here d)) = rw (e, d) refl
apart p q (there (here e)) (there (there (here d))) = rw (e, d) refl
apart p q (there (there (here e))) (here d) = rw (e, d) refl
apart p q (there (there (here e))) (there (here d)) = rw (e, d) refl
apart p q (there (there (here e))) (there (there (here d))) = rw (e, d) refl
apart p q (here e) (there (there (there i))) = elim i [ ]
apart p q (there (here e)) (there (there (there i))) = elim i [ ]
apart p q (there (there (here e))) (there (there (there i))) = elim i [ ]
apart p q (there (there (there i))) _ = elim i [ ]

-- Nothing of the file keeps it: it is not needed, not young or leased, and can be removed.
pub record IsGarbage (r : Reader) (g : Option GcState) (now : ℤ) (root : Root) (f : File)
    : Type 0 where
  pub not_needed : IsNeeded r root f.name → ⊥
  pub not_temp : is_temp f.name ≡ false
  pub not_protected : cas_protected g f.name f.mod_time now ≡ false
  pub not_held : f.held ≡ false

module _ (r : Reader) (g : Option GcState) (now : ℤ) (root : Root) where
  garbage-is_removed :
      (live : List Str) (f : File)
      → live_keys r root ≡ ok live
      → IsGarbage r g now root f
      → is_removed g now live f ≡ true
  unfolding is_removed is_spared
  garbage-is_removed live f q w =
      rw (w.not_temp, unneeded, w.not_protected, w.not_held)
        (spared (has_prefix f.name (str "cas/")))
    where
      unneeded : contains f.name live ≡ false
      unneeded = elim (Bool-cases (contains f.name live)) [
        | inl e ↦
            absurd (
              w.not_needed
                ((live_keys-IsNeeded r root live f.name q).0 (contains-In f.name live e)))
        | inr e ↦ e
      ]

      spared : (b : Bool) → (if b && false then false else true) ≡ true
      spared true = refl
      spared false = refl

  gc_with-reclaims :
      (o : Result GcError (List Str)) {result : GcResult} (name : Str) (f : File)
      → live_keys r root ≡ o
      → (gc_with g now o root).0 ≡ ok result
      → In name swept_prefixes
      → HasDir name root
      → has_prefix f.name (name ++ str "/") ≡ true
      → IsGarbage r g now root f
      → In f (gc_with g now o root).1.files
      → ⊥
  unfolding gc_with goes
  gc_with-reclaims (err x) {result} name f q e n h p w i = err_is_ok e
    where
      err_is_ok : ◌≡◌ {A = Result GcError GcResult} (err x) (ok result) → ⊥
      err_is_ok d = cc
  gc_with-reclaims (ok live) name f q e n h p w i = false≢true (
      sym (
        sweep_prefixes-removes g now live swept_prefixes name _ root n (λ m j. apart name m n j) h
          i)
      ∙ gone (garbage-is_removed live f q w))
    where
      gone : is_removed g now live f ≡ true → goes g now live name f ≡ true
      gone d = rw (p, d, goes) refl

  -- After a collection that succeeds, no file below `manifest`, `artifact` or `cas`, where that
  -- directory exists, is left that is not needed, has no temporary name, is neither leased nor
  -- young, and can be removed.
  pub gc_once-reclaims :
      (result : GcResult) (name : Str) (f : File)
      → (gc_once r g now root).0 ≡ ok result
      → In name swept_prefixes
      → HasDir name root
      → has_prefix f.name (name ++ str "/") ≡ true
      → IsGarbage r g now root f
      → ¬ In f (gc_once r g now root).1.files
  unfolding gc_once
  gc_once-reclaims result name f e n h p w =
      gc_with-reclaims (live_keys r root) name f refl e n h p w
