-- ===== src/Store/Kept.antt =====
-- What a round of removals leaves of the files.
use relkit.Prelude.{
  Bool, true, false, not, Option, none, some, List, [], ◌∷◌, ◌++◌, ℤ, Str, str, ◌≡◌, inl, inr, In,
  refl, sym, subst, ◌∙◌, Bool-cases, In-keep, if◌then◌else◌, ◌&&◌,
}
use relkit.Prelude.Text.{has_prefix}
use relkit.Prelude.Results.{Result, ok, err}
use relkit.Store.Keys.{File, Dir, Root, Reader, list_files_under}
use relkit.Store.Live.{GcError, live_keys}
use relkit.Prelude.Sets.{In-contains}
use relkit.Store.Referenced.{IsNeeded}
use relkit.Store.Needed.{live_keys-IsNeeded}
use relkit.Store.Sweep.{
  is_bare, GcState, GcResult, is_temp, is_spared, is_removed, remove_dir, remove_bare,
  remove_empty_dirs, goes, without_removed, sweep_listed, sweep_prefixes, swept_prefixes, gc_with,
  gc_once,
}

remove_bare-files : (dirs : List Dir) (root : Root) → (remove_bare dirs root).1.files ≡ root.files
unfolding remove_bare remove_dir
remove_bare-files [] root = refl
remove_bare-files (d ∷ dirs) root =
    let here = is_bare root d.dir_name && not d.dir_held in
    remove_bare-files dirs (if here then remove_dir d root else root) ∙ same here
  where
    same : (b : Bool) → (if b then remove_dir d root else root).files ≡ root.files
    same true = refl
    same false = refl

pub remove_empty_dirs-files :
    (prefix : Str) (root : Root) → (remove_empty_dirs prefix root).1.files ≡ root.files
unfolding remove_empty_dirs
remove_empty_dirs-files prefix root = remove_bare-files _ root

module _ (g : Option GcState) (now : ℤ) (live : List Str) where
  goes-is_removed :
      (prefix : Str) (f : File) → is_removed g now live f ≡ false → goes g now live prefix f ≡ false
  unfolding goes
  goes-is_removed prefix f e = elim (Bool-cases (has_prefix f.name (prefix ++ str "/"))) [
    | inl p ↦ rw (p, goes) e
    | inr p ↦ rw (p, goes) refl
  ]

  sweep_listed-keeps :
      (prefix : Str) (o : Option (List File)) (result : GcResult) (root : Root) {f : File}
      → is_removed g now live f ≡ false
      → In f root.files
      → In f (sweep_listed g now live prefix o result root).1.files
  unfolding sweep_listed without_removed
  sweep_listed-keeps prefix none result root e i = i
  sweep_listed-keeps prefix (some files) result root {f} e i =
      subst (λ fs. In f fs) (sym (remove_empty_dirs-files prefix _))
        (In-keep _ root.files i (rw (goes-is_removed prefix f e)))

  pub sweep_prefixes-keeps :
      (prefixes : List Str) (result : GcResult) (root : Root) {f : File}
      → is_removed g now live f ≡ false
      → In f root.files
      → In f (sweep_prefixes g now live prefixes result root).1.files
  unfolding sweep_prefixes
  sweep_prefixes-keeps [] result root e i = i
  sweep_prefixes-keeps (prefix ∷ prefixes) result root e i =
      sweep_prefixes-keeps prefixes _ _ e
        (sweep_listed-keeps prefix (list_files_under root prefix) result root e i)

  -- A live key that is not a temporary name is spared.
  pub is_removed-live :
      (f : File) → In f.name live → is_temp f.name ≡ false → is_removed g now live f ≡ false
  unfolding is_removed is_spared
  is_removed-live f i t = rw (t, In-contains f.name live i) refl

module _ (r : Reader) (g : Option GcState) (now : ℤ) (root : Root) where
  gc_with-keeps :
      (o : Result GcError (List Str)) (f : File)
      → live_keys r root ≡ o
      → In f root.files
      → IsNeeded r root f.name
      → is_temp f.name ≡ false
      → In f (gc_with g now o root).1.files
  unfolding gc_with
  gc_with-keeps (err e) f q i n t = i
  gc_with-keeps (ok live) f q i n t =
      sweep_prefixes-keeps g now live swept_prefixes _ root
        (is_removed-live g now live f ((live_keys-IsNeeded r root live f.name q).1 n) t) i

  -- Whatever the files are, a file that is needed (a published index that can be read names its
  -- key, an artifact of a manifest that such an index names has its key or digest, or a latest
  -- pointer names it) and that has no temporary name is still there after a collection, also
  -- where the collection stops at an error.
  pub gc_once-keeps :
      (f : File)
      → In f root.files
      → IsNeeded r root f.name
      → is_temp f.name ≡ false
      → In f (gc_once r g now root).1.files
  unfolding gc_once
  gc_once-keeps f i n t = gc_with-keeps (live_keys r root) f refl i n t
