-- ===== src/Store/Sweep.antt =====
-- The removal of what is not live (`gcOnce`, its second half), the state that decides what is young
-- enough to stay, and `runGC`.
use relkit.Prelude.{
  eqb_ℕ, suc, ℕ, ◌+◌, Bool, true, false, not, ◌&&◌, Option, none, some, List, [], ◌∷◌, ◌++◌, ℤ, pos,
  ◌-ℤ◌, Str, str, ◌==◌, ltb_ℤ, leb_ℤ, if◌then◌else◌, any, keep, length,
}
use mathlib.Core.List.{reverse}
use relkit.Prelude.Sets.{contains}
use relkit.Prelude.Text.{skip, has_prefix, has_suffix, trim_suffix}
use relkit.Prelude.Dicts.{Dict, lookup, insert}
use relkit.Prelude.Results.{Result, ok, err}
use relkit.Store.Keys.{File, Dir, Root, Reader, list_files_under}
use relkit.Store.Live.{GcError, live_keys}

-- The fields of `gcState` that a round reads; its timers and locks are left out. Durations and
-- instants are nanoseconds.
pub record GcState : Type 0 where
  pub enabled : Bool
  pub interval : ℤ
  pub debounce : ℤ
  pub cas_grace : ℤ
  pub leases : Dict ℤ

unfoldable pub positive_or : ℤ → ℤ → ℤ
positive_or d t = if leb_ℤ t (pos 0) then d else t

unfoldable pub new_gc_state : Bool → ℤ → ℤ → ℤ → GcState
unfolding positive_or
new_gc_state enabled interval debounce cas_grace = record {
  enabled = enabled;
  interval = interval;
  debounce = positive_or (pos 2000000000) debounce;
  cas_grace = positive_or (pos 86400000000000) cas_grace;
  leases = [];
}

unfoldable pub retain_cas : Str → ℤ → Option GcState → Option GcState
retain_cas key until none = none
retain_cas key until (some g) = some (record g { leases = insert key until g.leases })

-- `now.Before(until)` for a lease that there is
unfoldable pub is_leased : ℤ → Option ℤ → Bool
is_leased now none = false
is_leased now (some until) = ltb_ℤ now until

unfoldable pub cas_protected : Option GcState → Str → ℤ → ℤ → Bool
cas_protected none key mtime now = false
cas_protected (some g) key mtime now =
    if is_leased now (lookup key g.leases)
    then true
    else ltb_ℤ (pos 0) g.cas_grace && ltb_ℤ (now -ℤ mtime) g.cas_grace

unfoldable pub is_temp : Str → Bool
is_temp name = has_suffix name (str ".tmp~")

-- Whether the loop goes on to the next file without a removal.
unfoldable pub is_spared : Option GcState → ℤ → List Str → File → Bool
is_spared g now live f =
    let cas = has_prefix f.name (str "cas/") in
    if is_temp f.name
    then cas && cas_protected g (trim_suffix f.name (str ".tmp~")) f.mod_time now
    else if contains f.name live
    then true
    else cas && cas_protected g f.name f.mod_time now

-- Whether the removal takes place.
unfoldable pub is_removed : Option GcState → ℤ → List Str → File → Bool
is_removed g now live f = if is_spared g now live f then false else not f.held

-- The parent of a path: what stands before its last `/`.
unfoldable pub is_child : Str → Str → Bool
is_child dir name =
    has_prefix name (dir ++ str "/") && not (any (λ c. eqb_ℕ c 47) (skip (length dir + 1) name))

unfoldable pub is_bare : Root → Str → Bool
is_bare root dir =
    not (any (λ f. is_child dir f.name) root.files)
    && not (any (λ d. is_child dir d.dir_name) root.dirs)

unfoldable pub remove_dir : Dir → Root → Root
remove_dir d root = record root { dirs = keep (λ e. not (e.dir_name == d.dir_name)) root.dirs }

-- `removeEmptyDirs`: its loop, over the directories from the last to the first.
unfoldable pub remove_bare : List Dir → Root → ℕ × Root
remove_bare [] root = (0, root)
remove_bare (d ∷ dirs) root =
    let here = is_bare root d.dir_name && not d.dir_held in
    let rest = remove_bare dirs (if here then remove_dir d root else root) in
    (if here then suc rest.0 else rest.0, rest.1)

unfoldable pub remove_empty_dirs : Str → Root → ℕ × Root
remove_empty_dirs prefix root =
    remove_bare (reverse (keep (λ d. has_prefix d.dir_name (prefix ++ str "/")) root.dirs)) root

pub record GcResult : Type 0 where
  pub live : ℕ
  pub files_removed : ℕ
  pub dirs_removed : ℕ

-- Whether the round over the directory removes the file.
unfoldable pub goes : Option GcState → ℤ → List Str → Str → File → Bool
goes g now live prefix f = has_prefix f.name (prefix ++ str "/") && is_removed g now live f

unfoldable pub without_removed : Option GcState → ℤ → List Str → Str → Root → Root
without_removed g now live prefix root = record root {
  files = keep (λ f. not (goes g now live prefix f)) root.files;
}

unfoldable pub count_removed : Option GcState → ℤ → List Str → List File → ℕ
count_removed g now live files = length (keep (is_removed g now live) files)

-- The round over one of the three directories; one that does not exist is passed over.
unfoldable pub sweep_listed :
    Option GcState → ℤ → List Str → Str → Option (List File) → GcResult → Root → GcResult × Root
sweep_listed g now live prefix none result root = (result, root)
sweep_listed g now live prefix (some files) result root =
    let swept = remove_empty_dirs prefix (without_removed g now live prefix root) in
    (
      record {
        live = result.live;
        files_removed = result.files_removed + count_removed g now live files;
        dirs_removed = result.dirs_removed + swept.0;
      },
      swept.1,
    )

unfoldable pub sweep_prefixes :
    Option GcState → ℤ → List Str → List Str → GcResult → Root → GcResult × Root
sweep_prefixes g now live [] result root = (result, root)
sweep_prefixes g now live (prefix ∷ prefixes) result root =
    let swept = sweep_listed g now live prefix (list_files_under root prefix) result root in
    sweep_prefixes g now live prefixes swept.0 swept.1

unfoldable pub swept_prefixes : List Str
swept_prefixes = str "manifest" ∷ str "artifact" ∷ str "cas" ∷ []

unfoldable pub gc_with :
    Option GcState → ℤ → Result GcError (List Str) → Root → Result GcError GcResult × Root
gc_with g now (err e) root = (err e, root)
gc_with g now (ok live) root =
    let swept =
      sweep_prefixes g now live swept_prefixes
        (record { live = length live; files_removed = 0; dirs_removed = 0 }) root in
    (ok swept.0, swept.1)

-- `gcOnce`, at one instant
unfoldable pub gc_once : Reader → Option GcState → ℤ → Root → Result GcError GcResult × Root
gc_once r g now root = gc_with g now (live_keys r root) root

-- `runGC`: nothing without a state, when it is off, or while another round runs.
unfoldable pub run_gc : Reader → Option GcState → Bool → ℤ → Root → Root
run_gc r none running now root = root
run_gc r (some g) running now root =
    if g.enabled && not running then (gc_once r (some g) now root).1 else root
