-- ===== src/Prelude/Text.antt =====
-- The functions of Go's `strings` and `path` that the program calls on byte strings. Of the white
-- space that `TrimSpace` knows these take the ASCII bytes.
use Prim.Native.Nat.{ℕ, zero, suc, ◌+◌}
use mathlib.Core.Bool.{Bool, true, false, ◌&&◌, ◌||◌}
use mathlib.Core.List.{List, [], ◌∷◌, ◌++◌, reverse}
use relkit.Prelude.Tests.{eqb_ℕ, leb, if◌then◌else◌}
use relkit.Prelude.Lists.{length}
use relkit.Prelude.Strings.{Str, str, ◌==◌}

-- `strings.HasPrefix`, `strings.HasSuffix`
unfoldable pub has_prefix : Str → Str → Bool
has_prefix s [] = true
has_prefix [] (p ∷ prefix) = false
has_prefix (c ∷ s) (p ∷ prefix) =
    let rest = has_prefix s prefix in if eqb_ℕ c p then rest else false

unfoldable pub has_suffix : Str → Str → Bool
unfolding has_prefix
has_suffix s suffix = has_prefix (reverse s) (reverse suffix)

unfoldable pub skip : ℕ → Str → Str
skip zero s = s
skip (suc n) [] = []
skip (suc n) (c ∷ s) = skip n s

-- `strings.TrimPrefix`, `strings.TrimSuffix`
unfoldable pub trim_prefix : Str → Str → Str
unfolding has_prefix skip
trim_prefix s prefix = if has_prefix s prefix then skip (length prefix) s else s

unfoldable pub trim_suffix : Str → Str → Str
unfolding trim_prefix
trim_suffix s suffix = reverse (trim_prefix (reverse s) (reverse suffix))

is_space : ℕ → Bool
is_space c = eqb_ℕ c 32 || (leb 9 c && leb c 13)

unfoldable pub trim_left_space : Str → Str
unfolding is_space
trim_left_space [] = []
trim_left_space (c ∷ s) = let rest = trim_left_space s in if is_space c then rest else c ∷ s

-- `strings.TrimSpace`
unfoldable pub trim_space : Str → Str
unfolding trim_left_space
trim_space s = reverse (trim_left_space (reverse (trim_left_space s)))

unfoldable pub onto_first : ℕ → List Str → List Str
onto_first c [] = (c ∷ []) ∷ []
onto_first c (part ∷ parts) = (c ∷ part) ∷ parts

-- `strings.Split` at a separator of one byte
unfoldable pub split : Str → ℕ → List Str
unfolding onto_first
split [] sep = [] ∷ []
split (c ∷ s) sep =
    let parts = split s sep in if eqb_ℕ c sep then [] ∷ parts else onto_first c parts

-- `strings.Join`
unfoldable pub join : List Str → Str → Str
join [] sep = []
join (part ∷ parts) sep =
    let rest = join parts sep in elim parts [ [] ↦ part | _ ∷ _ ↦ part ++ sep ++ rest ]

-- The elements so far are kept with the last one first.
-- `..`: the last element goes, unless it is itself a `..`; above the root there is nothing.
unfoldable pub climb : Bool → List Str → List Str
climb rooted [] = if rooted then [] else str ".." ∷ []
climb rooted (last ∷ before) = if last == str ".." then str ".." ∷ last ∷ before else before

unfoldable pub clean_step : Bool → List Str → Str → List Str
unfolding climb
clean_step rooted kept part =
    if part == [] || part == str "."
    then kept
    else if part == str ".."
    then climb rooted kept
    else part ∷ kept

unfoldable pub clean_parts : Bool → List Str → List Str → List Str
unfolding clean_step
clean_parts rooted kept [] = reverse kept
clean_parts rooted kept (part ∷ parts) = clean_parts rooted (clean_step rooted kept part) parts

-- The elements of a clean path, and the path that they make.
unfoldable pub elements : Str → List Str
elements s = clean_parts (has_prefix s (str "/")) [] (split s 47)

unfoldable pub render : Bool → List Str → Str
unfolding join
render rooted parts =
    let body = join parts (str "/") in
    if rooted then str "/" ++ body else if body == [] then str "." else body

-- `path.Clean`
unfoldable pub clean : Str → Str
unfolding elements render has_prefix split clean_parts
clean s = render (has_prefix s (str "/")) (elements s)

-- `strings.ToLower` on ASCII
abbrev pub lower_byte : ℕ → ℕ
lower_byte c = if leb 65 c && leb c 90 then c + 32 else c

unfoldable pub to_lower : Str → Str
to_lower [] = []
to_lower (c ∷ s) = lower_byte c ∷ to_lower s
