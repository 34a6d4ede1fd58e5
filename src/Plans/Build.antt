-- ===== src/Plans/Build.antt =====
-- `reusablePlan`, `refreshPlan` and `buildPlan`.
use relkit.Prelude.{
  Bool, false, not, ◌&&◌, ◌||◌, Option, none, some, List, [], ◌∷◌, ℤ, pos, ◌+ℤ◌, Str, str, ◌==◌,
  ltb, ltb_ℤ, eqb_ℕ, eqb_ℤ, ltb_str, if◌then◌else◌,
}
use relkit.Prelude.Sorting.{sort_by}
use relkit.Rup.{ArtifactKind, unspecified, archive, installer, binary, blob, payload, Artifact}
use relkit.Inprocess.{UpdateAvailable}
use relkit.Plans.{
  PlannedFile, UpdatePlan, Entry, Disk, plan_ttl, as_time, id_of, file_of, listing, load_plan,
  same_plan_files, plan_file_ready, count_ready,
}
use relkit.Plans.Filename.{validate_artifact_filename}

-- What the engine takes from `crypto/hmac` and the protobuf runtime: the HMAC of bytes with a key, and
-- the bytes of a plan.
pub record Sealing : Type 0 where
  pub mac : Str → Str → Str
  pub marshal_plan : UpdatePlan → Str

-- `hmacPlan`, `verifyPlan`
unfoldable pub hmac_plan : Sealing → Str → UpdatePlan → Str
hmac_plan s key plan = s.mac key (s.marshal_plan (record plan { plan_hmac = [] }))

unfoldable pub verify_plan : Sealing → Str → UpdatePlan → Bool
verify_plan s key plan = plan.plan_hmac == hmac_plan s key plan

-- `readNames`, and `listDir`, which sorts
unfoldable pub with_id : Option Str → List Str → List Str
with_id none ids = ids
with_id (some id) ids = id ∷ ids

unfoldable pub read_names : List (Entry UpdatePlan) → List Str
read_names [] = []
read_names (e ∷ rest) = with_id (id_of e.name) (read_names rest)

unfoldable pub list_dir : Disk → List Str
unfolding read_names
list_dir disk = sort_by ltb_str (read_names (listing disk.plans))

unfoldable pub is_current : ℤ → Option ℤ → Bool
is_current now none = false
is_current now (some expires) = ltb_ℤ now expires

unfoldable pub answers : UpdatePlan → UpdatePlan → Bool
answers want p =
    (p.product == want.product)
    && (p.channel == want.channel)
    && eqb_ℤ p.code want.code
    && same_plan_files p.files want.files

-- What the loop goes on with for one id: an intact plan that did not expire and that answers `want`.
unfoldable pub qualified : Sealing → Str → UpdatePlan → ℤ → Str → UpdatePlan → Bool
qualified s key want now id p =
    (p.plan_id == id) && verify_plan s key p && is_current now p.expires_at && answers want p

unfoldable pub candidate :
    Sealing → Str → UpdatePlan → ℤ → Str → Option UpdatePlan → Option UpdatePlan
candidate s key want now id none = none
candidate s key want now id (some p) = if qualified s key want now id p then some p else none

-- Whether a plan replaces the best one so far: more bytes are there, or it is newer.
unfoldable pub beats : Disk → UpdatePlan → UpdatePlan → Bool
beats disk p best =
    let ready = count_ready disk p.files in
    let best_ready = count_ready disk best.files in
    ltb best_ready ready
    || (eqb_ℕ ready best_ready && ltb_ℤ (as_time best.created_at) (as_time p.created_at))

unfoldable pub better_of : Disk → Option UpdatePlan → Option UpdatePlan → Option UpdatePlan
better_of disk best none = best
better_of disk none (some p) = some p
better_of disk (some best) (some p) = if beats disk p best then some p else some best

unfoldable pub scan_plans :
    Sealing → Disk → Str → UpdatePlan → ℤ → List Str → Option UpdatePlan → Option UpdatePlan
scan_plans s disk key want now [] best = best
scan_plans s disk key want now (id ∷ ids) best =
    scan_plans s disk key want now ids
      (better_of disk best (candidate s key want now id (load_plan id disk)))

-- `reusablePlan`
unfoldable pub reusable_plan : Sealing → Disk → Str → UpdatePlan → ℤ → Option UpdatePlan
reusable_plan s disk key want now = scan_plans s disk key want now (list_dir disk) none

-- `refreshPlan`: the files keep their place in the list.
unfoldable pub refresh_file : Disk → PlannedFile → PlannedFile → PlannedFile
refresh_file disk f fresh =
    if f.downloaded && not (plan_file_ready disk f)
    then record f { urls = fresh.urls; downloaded = false; local_path = [] }
    else record f { urls = fresh.urls }

unfoldable pub refresh_files : Disk → List PlannedFile → List PlannedFile → List PlannedFile
refresh_files disk [] fresh = []
refresh_files disk (f ∷ files) [] = f ∷ files
refresh_files disk (f ∷ files) (g ∷ fresh) = refresh_file disk f g ∷ refresh_files disk files fresh

unfoldable pub refresh_plan : Disk → UpdatePlan → UpdatePlan → UpdatePlan
refresh_plan disk old fresh = record old {
  version = fresh.version;
  sequence = fresh.sequence;
  mandatory = fresh.mandatory;
  remaining_hops = fresh.remaining_hops;
  release_notes_markdown = fresh.release_notes_markdown;
  release_notes_url = fresh.release_notes_url;
  expires_at = fresh.expires_at;
  files = refresh_files disk old.files fresh.files;
}

-- `ArtifactKindString`
unfoldable pub artifact_kind_string : ArtifactKind → Str
artifact_kind_string unspecified = []
artifact_kind_string archive = str "archive"
artifact_kind_string installer = str "installer"
artifact_kind_string binary = str "binary"
artifact_kind_string blob = str "blob"
artifact_kind_string payload = str "payload"

unfoldable pub planned_file : Artifact → PlannedFile
planned_file a = record {
  name = a.filename;
  size = a.size;
  sha256_hex = a.sha256;
  urls = a.urls;
  local_path = [];
  downloaded = false;
  kind = artifact_kind_string a.kind;
}

-- The plan before its seal; `id` is what `newID` draws.
unfoldable pub fresh_plan : Str → Str → Str → UpdateAvailable → ℤ → UpdatePlan
fresh_plan id product channel av now = record {
  plan_id = id;
  product = product;
  channel = channel;
  version = av.target.version;
  code = av.target.code;
  sequence = av.sequence;
  mandatory = av.mandatory;
  remaining_hops = av.remaining_hops;
  release_notes_markdown = av.target.notes;
  release_notes_url = av.target.notes_url;
  files = planned_file av.artifact ∷ [];
  created_at = some now;
  expires_at = some (now +ℤ plan_ttl);
  plan_hmac = [];
}

unfoldable pub reuse_or : Disk → Option UpdatePlan → UpdatePlan → UpdatePlan
reuse_or disk none fresh = fresh
reuse_or disk (some prior) fresh = refresh_plan disk prior fresh

unfoldable pub sealed : Sealing → Str → UpdatePlan → UpdatePlan
sealed s key plan = record plan { plan_hmac = hmac_plan s key plan }

-- `savePlan`: the record with the name is replaced, or added.
unfoldable pub put_entry : Str → UpdatePlan → List (Entry UpdatePlan) → List (Entry UpdatePlan)
put_entry name plan [] =
    record { name = name; is_dir = false; mod_time = pos 0; content = some plan; held = false } ∷ []
put_entry name plan (e ∷ rest) =
    let later = put_entry name plan rest in
    if e.name == name then record e { content = some plan } ∷ rest else e ∷ later

unfoldable pub save_plan : UpdatePlan → Disk → Disk
save_plan plan disk = record disk {
  plans = some (put_entry (file_of plan.plan_id) plan (listing disk.plans));
}

-- The plan that a check issues, sealed.
unfoldable pub issued : Sealing → Str → UpdatePlan → ℤ → Disk → UpdatePlan
issued s key fresh now disk =
    sealed s key (reuse_or disk (reusable_plan s disk key fresh now) fresh)

unfoldable pub saved : UpdatePlan → Disk → UpdatePlan × Disk
saved plan disk = (plan, save_plan plan disk)

-- `buildPlan`, where the key is read and the record can be written
unfoldable pub build_plan :
    Sealing → Str → Str → Str → Str → UpdateAvailable → ℤ → Disk → Option (UpdatePlan × Disk)
build_plan s key id product channel av now disk =
    if validate_artifact_filename av.artifact.filename
    then some (saved (issued s key (fresh_plan id product channel av now) now disk) disk)
    else none
