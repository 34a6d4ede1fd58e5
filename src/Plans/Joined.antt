-- ===== src/Plans/Joined.antt =====
-- Where an artifact's file is put: below the directory that is asked for.
use mathlib.Core.List.{reverse, reverse-cons, append_assoc, append-nil}
use relkit.Prelude.{
  ℕ, Bool, true, false, not, ◌&&◌, ◌||◌, Option, none, some, List, [], ◌∷◌, ◌++◌, Str, str, ◌==◌,
  ◌≡◌, inl, inr, refl, sym, ◌∙◌, ap, In, here, there, any-false, eqb_ℕ, Bool-cases, false≢true,
  if◌then◌else◌,
}
use relkit.Prelude.Text.{
  climb, has_prefix, split, onto_first, clean_step, clean_parts, elements, render, clean,
}
use relkit.Plans.Filename.{
  checked_below, is_plain, is_reserved, legal_part, with_slashes, validate_artifact_filename,
  join_path, join_under,
}

split-some : (s : Str) (sep : ℕ) → (p : Str) × (ps : List Str) × (split s sep ≡ p ∷ ps)
unfolding split
split-some [] sep = ([], [], refl)
split-some (c ∷ s) sep = elim (Bool-cases (eqb_ℕ c sep)) [
  | inl e ↦ ([], split s sep, rw e refl)
  | inr e ↦ let (p, ps, h) = split-some s sep in (c ∷ p, ps, rw (e, h) refl)
]

split-append : (a b : Str) → split (a ++ str "/" ++ b) 47 ≡ split a 47 ++ split b 47
unfolding split onto_first
split-append [] b = refl
split-append (c ∷ a) b = elim (Bool-cases (eqb_ℕ c 47)) [
  | inl e ↦ rw e (ap (λ ps. [] ∷ ps) (split-append a b))
  | inr e ↦ rw e (ap (onto_first c) (split-append a b) ∙ onto (split a 47) (split-some a 47))
]
  where
    onto :
        (ps : List Str)
        → (p : Str) × (qs : List Str) × (ps ≡ p ∷ qs)
        → onto_first c (ps ++ split b 47) ≡ onto_first c ps ++ split b 47
    onto ps (p, qs, h) = rw h refl

clean_step-plain :
    (rooted : Bool) (kept : List Str) (part : Str)
    → is_plain part ≡ true
    → clean_step rooted kept part ≡ part ∷ kept
unfolding clean_step is_plain
clean_step-plain rooted kept part h = go (part == []) (part == str ".") (part == str "..") h
  where
    go :
        (a b c : Bool)
        → not (a || b || c) ≡ true
        → (if a || b then kept else if c then climb rooted kept else part ∷ kept) ≡ part ∷ kept
    go true b c e = absurd (false≢true e)
    go false true c e = absurd (false≢true e)
    go false false true e = absurd (false≢true e)
    go false false false e = refl

abbrev pub AllPlain : List Str → Type 0
AllPlain parts = (p : Str) → In p parts → is_plain p ≡ true

clean_parts-plain :
    (rooted : Bool) (kept parts : List Str)
    → AllPlain parts
    → clean_parts rooted kept parts ≡ reverse kept ++ parts
unfolding clean_parts
clean_parts-plain rooted kept [] h = sym (append-nil (reverse kept))
clean_parts-plain rooted kept (p ∷ parts) h =
    ap (λ k. clean_parts rooted k parts) (clean_step-plain rooted kept p (h p (here refl)))
    ∙ clean_parts-plain rooted (p ∷ kept) parts (λ q i. h q (there i))
    ∙ ap (λ k. k ++ parts) (reverse-cons p kept)
    ∙ append_assoc (reverse kept) (p ∷ []) parts

clean_parts-append :
    (rooted : Bool) (kept before parts : List Str)
    → AllPlain parts
    → clean_parts rooted kept (before ++ parts) ≡ clean_parts rooted kept before ++ parts
unfolding clean_parts
clean_parts-append rooted kept [] parts h = clean_parts-plain rooted kept parts h
clean_parts-append rooted kept (b ∷ before) parts h =
    clean_parts-append rooted (clean_step rooted kept b) before parts h

has_prefix-joined :
    (c : ℕ) (root rest : Str)
    → has_prefix ((c ∷ root) ++ rest) (str "/") ≡ has_prefix (c ∷ root) (str "/")
unfolding has_prefix
has_prefix-joined c root rest = refl

validated-AllPlain :
    (rel : Str) → validate_artifact_filename rel ≡ true → AllPlain (split (with_slashes rel) 47)
unfolding validate_artifact_filename legal_part
validated-AllPlain rel h p i =
    plain (is_plain p) (not (is_reserved p))
      (any-false _ (split (with_slashes rel) 47) (go _ _ _ _ h) i)
  where
    go :
        (a b c d : Bool)
        → (if a then false else if b then false else if c then false else d) ≡ true
        → c ≡ false
    go true b c d e = absurd (false≢true e)
    go false true c d e = absurd (false≢true e)
    go false false true d e = absurd (false≢true e)
    go false false false d e = refl

    plain : (a b : Bool) → not (a && b) ≡ false → a ≡ true
    plain true b e = refl
    plain false b e = absurd (false≢true (sym e))

joined :
    (c : ℕ) (root rel : Str)
    → AllPlain (split rel 47)
    → join_path (c ∷ root) rel
      ≡ render (has_prefix (c ∷ root) (str "/")) (elements (c ∷ root) ++ split rel 47)
unfolding join_path clean elements
joined c root rel plain = ap (render (has_prefix (c ∷ root) (str "/"))) (
    ap (clean_parts (has_prefix (c ∷ root) (str "/")) []) (split-append (c ∷ root) rel)
    ∙ clean_parts-append (has_prefix (c ∷ root) (str "/")) [] (split (c ∷ root) 47) (split rel 47)
        plain)

checked_same :
    (path : Str) (out : Option Str) {full : Str} → checked_below path out ≡ some full → path ≡ full
unfolding checked_below
checked_same path none q = cc
checked_same path (some o) {full} q = go (has_prefix o (str "..")) q
  where
    go : (b : Bool) → ◌≡◌ {A = Option Str} (if b then none else some path) (some full) → path ≡ full
    go true p = cc
    go false p = cc

-- If `joinUnder` accepts a name below a root that is not empty, the path that it returns has the
-- elements of the root and then those of the name with slashes, none of which is empty, `.` or
-- `..`: an artifact's file lies below the directory.
pub join_under-below :
    (relative : Str → Str → Option Str) (c : ℕ) (root rel full : Str)
    → join_under relative (c ∷ root) rel ≡ some full
    → (full
        ≡ render
            (has_prefix (c ∷ root) (str "/"))
            (elements (c ∷ root) ++ split (with_slashes rel) 47))
      × AllPlain (split (with_slashes rel) 47)
unfolding join_under
join_under-below relative c root rel full e = elim (Bool-cases (validate_artifact_filename rel)) [
  | inl h ↦
      let plain = validated-AllPlain rel h in
      (
        sym (checked_same _ (relative (c ∷ root) _) (rw (h, join_under) at e))
            ∙ joined c root (with_slashes rel) plain,
        plain,
      )
  | inr h ↦ absurd (none_is_some (rw (h, join_under) at e))
]
  where
    none_is_some : {a : Str} → ◌≡◌ {A = Option Str} none (some a) → ⊥
    none_is_some p = cc
