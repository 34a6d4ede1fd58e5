-- ===== src/Chain/Reachability/Sound.antt =====
-- What an index without reachability errors promises to every client.
use relkit.Prelude.{
  ℕ, ◌≤◌, ◌≡◌, refl, sym, ap, Bool, true, false, Option, none, some, List, [], ◌∷◌, ℤ, ◌≤ℤ◌, ◌<ℤ◌,
  arith, In, ◌++◌, any, Str, pos, str, eqb_ℤ, here, there, inl, inr, subst, Option-cases,
  Bool-cases, ltb_ℤ, ltb_ℤ→le, eqb_ℤ_iff, ltb,
}
use relkit.Rup.{VersionNode, Index}
use relkit.Chain.{has_min_supported, find_head}
use relkit.Chain.Optimal.{Hops}
use relkit.Chain.Head.{reaches-Hops, IsHead, find_head-IsHead, reaches_mono}
use relkit.Chain.Reachability.{
  insert_str, sorted_codes, add_if, add_code, insert_int, sorted_keys, node_codes, count_code,
  duplicated, stranded_below, head_errors, minimum_errors, validate_reachability,
}

insert_str-ne-nil : (s : Str) (l : List Str) → insert_str s l ≡ [] → ⊥
unfolding insert_str
insert_str-ne-nil s [] e = cc
insert_str-ne-nil s (t ∷ l) e = ground arith

sorted_codes-nil : (l : List Str) → sorted_codes l ≡ [] → l ≡ []
unfolding sorted_codes
sorted_codes-nil [] e = refl
sorted_codes-nil (s ∷ l) e = absurd (insert_str-ne-nil s (sorted_codes l) e)

append-ne-nil : (l : List Str) (s : Str) → l ++ s ∷ [] ≡ [] → ⊥
append-ne-nil [] s e = cc
append-ne-nil (t ∷ l) s e = cc

add_code-ne-nil : (l : List Str) (s : Str) → add_code l s ≡ [] → ⊥
unfolding add_code
add_code-ne-nil [] s e = cc
add_code-ne-nil (t ∷ l) s e = ground (arith, append-ne-nil (t ∷ l) s)

add_if-nil : (b : Bool) (l : List Str) (s : Str) → add_if b l s ≡ [] → (b ≡ false) × (l ≡ [])
unfolding add_if
add_if-nil true l s e = absurd (add_code-ne-nil l s e)
add_if-nil false l s e = (refl, e)

In-insert_self : (c : ℤ) (l : List ℤ) → In c (insert_int c l)
unfolding insert_int
In-insert_self c [] = here refl
In-insert_self c (d ∷ l) = elim (Bool-cases (ltb_ℤ c d)) [
  | inl lt ↦ rw lt (here refl)
  | inr ge ↦ elim (Bool-cases (eqb_ℤ c d)) [
    | inl same ↦ rw (ge, same) (here ((eqb_ℤ_iff c d).0 same))
    | inr other ↦ rw (ge, other) (there (In-insert_self c l))
  ]
]

In-insert : (a c : ℤ) (l : List ℤ) → In a l → In a (insert_int c l)
unfolding insert_int
In-insert a c [] i = elim i [ ]
In-insert a c (d ∷ l) i = elim (Bool-cases (ltb_ℤ c d)) [
  | inl lt ↦ rw lt (there i)
  | inr ge ↦ elim (Bool-cases (eqb_ℤ c d)) [
    | inl same ↦ rw (ge, same) i
    | inr other ↦ rw (ge, other) (tail_or a c d l i (In-insert a c l))
  ]
]
  where
    tail_or :
        (a c d : ℤ) (l : List ℤ)
        → In a (d ∷ l)
        → (In a l → In a (insert_int c l))
        → In a (d ∷ insert_int c l)
    tail_or a c d l (here e) f = here e
    tail_or a c d l (there i) f = there (f i)

In-sorted_keys : (a : ℤ) (l : List ℤ) → In a l → In a (sorted_keys l)
unfolding sorted_keys
In-sorted_keys a [] i = i
In-sorted_keys a (c ∷ l) (here e) =
    subst (λ z. In z (insert_int c (sorted_keys l))) (sym e) (In-insert_self c (sorted_keys l))
In-sorted_keys a (c ∷ l) (there i) = In-insert a c (sorted_keys l) (In-sorted_keys a l i)

In-node_codes :
    {u : VersionNode} (l : List (Option VersionNode)) → In (some u) l → In u.code (node_codes l)
In-node_codes [] i = elim i [ ]
In-node_codes (none ∷ l) (here e) = cc
In-node_codes (none ∷ l) (there i) = In-node_codes l i
In-node_codes {u} (some t ∷ l) (here e) =
    here (let same : u ≡ t = cc in ap (λ (v : VersionNode). v.code) same)
In-node_codes (some t ∷ l) (there i) = there (In-node_codes l i)

any-false : (p : ℤ → Bool) (l : List ℤ) (a : ℤ) → any p l ≡ false → In a l → p a ≡ false
any-false p [] a e i = elim i [ ]
any-false p (c ∷ l) a e (here q) = rw q (ground arith)
any-false p (c ∷ l) a e (there i) = any-false p l a (ground arith) i

-- A client at `c` gets to the code of `h` by legal hops.
abbrev pub Gets : Index → VersionNode → ℤ → Type 0
Gets index h c = (n : ℕ) × Hops index n c h.code

-- What a checked index promises to clients, `h` being its head.
pub record Serves (index : Index) (h : VersionNode) : Type 0 where
  pub head : IsHead index h
  pub distinct :
      (c : ℤ) → In c (node_codes index.versions) → count_code c (node_codes index.versions) ≤ 1
  pub from_published :
      (u : VersionNode)
      → In (some u) index.versions
      → (c : ℤ) → u.code ≤ℤ c
      → c <ℤ h.code
      → Gets index h c
  pub minimum_fits : has_min_supported index ≡ true → index.min_supported ≤ℤ h.code
  pub from_minimum :
      has_min_supported index ≡ true
      → (c : ℤ) → index.min_supported ≤ℤ c
      → c <ℤ h.code
      → Gets index h c

-- Below the head, what is not stranded gets there, and so does every client above it.
not-stranded :
    (index : Index) (h : VersionNode) (c c' : ℤ)
    → IsHead index h
    → stranded_below index h c ≡ false
    → c ≤ℤ c'
    → c' <ℤ h.code
    → Gets index h c'
unfolding stranded_below
not-stranded index h c c' ih ok le lt =
    (reaches-Hops index h c' ih lt).0 (reaches_mono index h c c' ih le lt (ground arith))

distinct_of : (l : List ℤ) → duplicated l ≡ false → (c : ℤ) → In c l → count_code c l ≤ 1
unfolding duplicated
distinct_of l e c i = let f = any-false (λ d. ltb 1 (count_code d l)) l c e i in ground arith

record Checked (index : Index) (h : VersionNode) (errors : List Str) : Type 0 where
  published : any (stranded_below index h) (sorted_keys (node_codes index.versions)) ≡ false
  earlier : errors ≡ []
  minimum : has_min_supported index ≡ true → index.min_supported ≤ℤ h.code
  from_minimum : has_min_supported index ≡ true → stranded_below index h index.min_supported ≡ false

minimum_errors-nil :
    (has above stranded : Bool) (errors : List Str)
    → minimum_errors has above stranded errors ≡ []
    → (errors ≡ []) × (has ≡ true → (above ≡ false) × (stranded ≡ false))
minimum_errors-nil false above stranded errors e = (unfold minimum_errors in e, λ h. cc)
minimum_errors-nil true true stranded errors e =
    absurd (add_code-ne-nil errors (str "min-supported-above-head") (unfold minimum_errors in e))
minimum_errors-nil true false stranded errors e =
    let last =
      add_if-nil stranded errors (str "min-supported-unreachable") (unfold minimum_errors in e) in
    (last.1, λ h. (refl, last.0))

head_errors-nil :
    (index : Index) (h : VersionNode) (errors : List Str)
    → head_errors index h errors ≡ []
    → Checked index h errors
unfolding head_errors
head_errors-nil index h errors e =
    let last =
      minimum_errors-nil (has_min_supported index) (ltb_ℤ h.code index.min_supported)
        (stranded_below index h index.min_supported) _ e in
    let first = add_if-nil _ errors (str "unreachable") last.0 in
    record {
      published = first.0;
      earlier = first.1;
      minimum = λ m. ltb_ℤ→le h.code index.min_supported (last.1 m).0;
      from_minimum = λ m. (last.1 m).1;
    }

-- If `ValidateReachability` reports no error for an index, then `FindHead` finds a head h, every
-- code is listed once, the minimum, if there is one, is not above h, and every client below h
-- whose code is at or above a listed code (yanked ones too) or the minimum can get to the code of
-- h by legal hops.
pub validate-Serves :
    (index : Index)
    → (validate_reachability index).0 ≡ []
    → (h : VersionNode) × (find_head index ≡ some h) × Serves index h
unfolding validate_reachability
validate-Serves index e = elim (Option-cases (find_head index)) [
  | inl n ↦
      absurd (
        add_code-ne-nil _ (str "no-head") (sorted_codes-nil _ (rw (n, validate_reachability) at e)))
  | inr (h, s) ↦
      let checked =
        head_errors-nil index h _ (sorted_codes-nil _ (rw (s, validate_reachability) at e)) in
      let once =
        add_if-nil (duplicated (node_codes index.versions)) [] (str "duplicate-code")
          checked.earlier in
      let ih = find_head-IsHead index s in
      (
        h,
        s,
        record {
          head = ih;
          distinct = distinct_of (node_codes index.versions) once.0;
          from_published = λ u i c le lt.
              not-stranded index h u.code c ih
                (any-false _ _ u.code checked.published
                  (In-sorted_keys u.code _ (In-node_codes index.versions i)))
                le lt;
          minimum_fits = checked.minimum;
          from_minimum = λ m c le lt.
              not-stranded index h index.min_supported c ih (checked.from_minimum m) le lt;
        },
      )
]

-- If `ValidateReachability` gives no warning for an index with head h, every client below h at
-- code 0 or above can get to the code of h by legal hops.
pub validate-zero :
    (index : Index) (h : VersionNode) (c : ℤ)
    → (validate_reachability index).1 ≡ []
    → find_head index ≡ some h
    → pos 0 ≤ℤ c
    → c <ℤ h.code
    → Gets index h c
unfolding validate_reachability
validate-zero index h c e s le lt =
    let quiet =
      add_if-nil _ [] (str "zero-unreachable")
        (sorted_codes-nil _ (rw (s, validate_reachability) at e)) in
    not-stranded index h (pos 0) c (find_head-IsHead index s) (unfold stranded_below in quiet.0) le
      lt
