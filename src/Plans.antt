-- ===== src/Plans.antt =====
-- The plans that the engine issues (internal/updater/plans.go, and `buildPlan` of check.go). A disk is
-- what the engine finds in its data directory; what the system refuses to list is `none`.
pub mod Filename
pub mod Build
pub mod Sweep
pub mod Reuse
pub mod Repeat
pub mod Spared
pub mod Bounded
pub mod Joined
use relkit.Prelude.{
  ℕ, ◌*◌, Bool, true, false, not, ◌&&◌, Option, none, some, List, [], ◌∷◌, ◌++◌, ℤ, pos, Str, str,
  ◌==◌, ltb_ℤ, eqb_ℤ, if◌then◌else◌, length, keep,
}
use relkit.Prelude.Text.{has_suffix, trim_suffix, to_lower}

pub record PlannedFile : Type 0 where
  pub name : Str
  pub size : ℤ
  pub sha256_hex : Str
  pub urls : List Str
  pub local_path : Str
  pub downloaded : Bool
  pub kind : Str

pub record UpdatePlan : Type 0 where
  pub plan_id : Str
  pub product : Str
  pub channel : Str
  pub version : Str
  pub code : ℤ
  pub sequence : ℤ
  pub mandatory : Bool
  pub remaining_hops : ℕ
  pub release_notes_markdown : Str
  pub release_notes_url : Str
  pub files : List PlannedFile
  pub created_at : Option ℤ
  pub expires_at : Option ℤ
  pub plan_hmac : Str

pub data SessionPhase : Type 0 where
  unspecified waiting_for_exit copying committing relaunching needs_attention completed rolled_back
        downloading :
      SessionPhase

pub record Session : Type 0 where
  pub plan_id : Str
  pub phase : SessionPhase
  pub started_at : Option ℤ
  pub heartbeat_at : Option ℤ
  pub staged_root : Str

-- An entry of a directory, with what its record reads as; `held` where it cannot be removed.
pub record Entry (A : Type 0) : Type 0 where
  pub name : Str
  pub is_dir : Bool
  pub mod_time : ℤ
  pub content : Option A
  pub held : Bool

pub record Disk : Type 0 where
  pub data_dir : Str
  pub plans : Option (List (Entry UpdatePlan))
  pub sessions : Option (List (Entry Session))
  pub staging : Option (List (Entry (Unit {0})))
  -- `os.Stat`: the size of a file
  pub size_of : Str → Option ℤ

-- `PlanTTL` in nanoseconds
abbrev pub plan_ttl : ℤ
plan_ttl = pos (24 * 3600 * 1_000_000_000)

-- `AsTime` of a timestamp that may be missing
abbrev pub as_time : Option ℤ → ℤ
as_time none = pos 0
as_time (some t) = t

-- The name without `.pb`, for one that ends so.
unfoldable pub id_of : Str → Option Str
id_of name = if has_suffix name (str ".pb") then some (trim_suffix name (str ".pb")) else none

abbrev pub file_of : Str → Str
file_of id = id ++ str ".pb"

abbrev pub listing {ℓ} : {A : Type ℓ} → Option (List A) → List A
listing none = []
listing (some entries) = entries

unfoldable pub find_entry : {A : Type 0} → Str → List (Entry A) → Option A
find_entry name [] = none
find_entry name (e ∷ rest) =
    let later = find_entry name rest in if e.name == name then e.content else later

-- `loadPlan`
unfoldable pub load_plan : Str → Disk → Option UpdatePlan
unfolding find_entry
load_plan id disk = find_entry (file_of id) (listing disk.plans)

-- `strings.EqualFold` on hexadecimal text
unfoldable pub equal_fold : Str → Str → Bool
equal_fold a b = to_lower a == to_lower b

unfoldable pub same_file : PlannedFile → PlannedFile → Bool
same_file a b =
    (a.name == b.name)
    && eqb_ℤ a.size b.size
    && equal_fold a.sha256_hex b.sha256_hex
    && (a.kind == b.kind)

-- `samePlanFiles`
unfoldable pub same_plan_files : List PlannedFile → List PlannedFile → Bool
same_plan_files [] [] = true
same_plan_files [] (_ ∷ _) = false
same_plan_files (_ ∷ _) [] = false
same_plan_files (a ∷ left) (b ∷ right) =
    let rest = same_plan_files left right in if same_file a b then rest else false

has_size : ℤ → Option ℤ → Bool
has_size size none = false
has_size size (some found) = eqb_ℤ found size

-- `planFileReady`, `planDownloaded`
unfoldable pub plan_file_ready : Disk → PlannedFile → Bool
unfolding has_size
plan_file_ready disk f =
    f.downloaded && not (f.local_path == []) && has_size f.size (disk.size_of f.local_path)

unfoldable pub count_ready : Disk → List PlannedFile → ℕ
count_ready disk files = length (keep (plan_file_ready disk) files)
