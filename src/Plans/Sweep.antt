-- ===== src/Plans/Sweep.antt =====
-- `sweepSessions` and `sweep`: what is removed from the data directory at an instant. The id of a plan
-- is the name of a file, so `planStagingDir` is the entry of the staging directory with that name.
use relkit.Prelude.{
  map, Bool, true, false, not, ◌&&◌, ◌||◌, Option, none, some, List, [], ◌∷◌, ◌++◌, ℤ, ◌-ℤ◌, Str,
  str, ◌==◌, ltb_ℤ, if◌then◌else◌, any, keep,
}
use relkit.Prelude.Text.{has_suffix, clean}
use relkit.Plans.{
  UpdatePlan, Session, SessionPhase, unspecified, waiting_for_exit, copying, committing,
  relaunching, needs_attention, completed, rolled_back, downloading, Entry, Disk, plan_ttl, as_time,
  id_of, listing,
}

-- `sessionLastSign`
unfoldable pub session_last_sign : Session → ℤ
session_last_sign sess = elim sess.heartbeat_at [ none ↦ as_time sess.started_at | some t ↦ t ]

unfoldable pub is_working : SessionPhase → Bool
is_working waiting_for_exit = true
is_working downloading = true
is_working copying = true
is_working committing = true
is_working relaunching = true
is_working unspecified = false
is_working needs_attention = false
is_working completed = false
is_working rolled_back = false

-- `sessionIsLive`
unfoldable pub session_is_live : Session → ℤ → Bool
session_is_live sess now = is_working sess.phase && ltb_ℤ (now -ℤ plan_ttl) (session_last_sign sess)

-- The sessions that were read, each with the name of its file.
unfoldable pub readable : Entry Session → Option Session → List (Str × Session)
readable e none = []
readable e (some sess) =
    if e.is_dir then [] else if has_suffix e.name (str ".pb") then (e.name, sess) ∷ [] else []

unfoldable pub read_sessions : List (Entry Session) → List (Str × Session)
read_sessions [] = []
read_sessions (e ∷ rest) = readable e e.content ++ read_sessions rest

unfoldable pub newer_of : Str × Session → Str × Session → Str × Session
newer_of best r = if ltb_ℤ (as_time best.1.started_at) (as_time r.1.started_at) then r else best

unfoldable pub newest_of : Option (Str × Session) → List (Str × Session) → Option (Str × Session)
newest_of best [] = best
newest_of none (r ∷ rest) = newest_of (some r) rest
newest_of (some best) (r ∷ rest) = newest_of (some (newer_of best r)) rest

unfoldable pub is_newest : Option (Str × Session) → Str → Bool
is_newest none name = false
is_newest (some r) name = r.0 == name

-- Whether the record of a finished session goes.
unfoldable pub session_goes : ℤ → Option (Str × Session) → Str × Session → Bool
session_goes now newest r =
    not (session_is_live r.1 now)
    && not (is_newest newest r.0)
    && ltb_ℤ plan_ttl (now -ℤ session_last_sign r.1)

unfoldable pub live_sessions : ℤ → List (Entry Session) → List Session
live_sessions now entries =
    map (λ r. r.1) (keep (λ r. session_is_live r.1 now) (read_sessions entries))

unfoldable pub sweep_sessions : ℤ → List (Entry Session) → List (Entry Session)
sweep_sessions now entries =
    let all = read_sessions entries in
    let gone = keep (session_goes now (newest_of none all)) all in
    keep (λ e. e.held || not (any (λ r. r.0 == e.name) gone)) entries

-- `planStagingDir`
unfoldable pub plan_staging_dir : Str → Str → Str
plan_staging_dir data_dir id = clean (data_dir ++ str "/staging/" ++ id)

-- Whether a live session has the plan, or its files.
unfoldable pub protects : Str → Str → Session → Bool
protects data_dir id sess =
    (sess.plan_id == id)
    || (not (sess.staged_root == [])
        && (clean sess.staged_root == clean (plan_staging_dir data_dir id)))

unfoldable pub is_protected : Str → List Session → Str → Bool
is_protected data_dir live id = any (protects data_dir id) live

-- What the loop over the plan records does with one entry: the record may go, the staged files may go,
-- and the id may be known.
pub record Verdict : Type 0 where
  pub drop_record : Bool
  pub drop_staged : Bool
  pub known : Bool

abbrev pub leave : Verdict
leave = record { drop_record = false; drop_staged = false; known = false }

abbrev pub spare : Verdict
spare = record { drop_record = false; drop_staged = false; known = true }

unfoldable pub judge_expiry : ℤ → Bool → Option ℤ → Verdict
judge_expiry now protected none = spare
judge_expiry now protected (some expiry) =
    if protected || ltb_ℤ now expiry
    then spare
    else let forgotten = ltb_ℤ plan_ttl (now -ℤ expiry) in
      record { drop_record = forgotten; drop_staged = true; known = not forgotten }

unfoldable pub judge_record : ℤ → Bool → Option UpdatePlan → Verdict
judge_record now protected none =
    if protected then leave else record { drop_record = true; drop_staged = false; known = false }
judge_record now protected (some plan) = judge_expiry now protected plan.expires_at

unfoldable pub judge_named : ℤ → (Str → Bool) → Option Str → Option UpdatePlan → Verdict
judge_named now protected none content = leave
judge_named now protected (some id) content = judge_record now (protected id) content

unfoldable pub judge : ℤ → (Str → Bool) → Entry UpdatePlan → Verdict
judge now protected e =
    if e.is_dir
    then leave
    else if has_suffix e.name (str ".tmp")
    then record {
      drop_record = ltb_ℤ plan_ttl (now -ℤ e.mod_time);
      drop_staged = false;
      known = false;
    }
    else judge_named now protected (id_of e.name) e.content

-- The ids of the entries whose verdict has a property.
unfoldable pub is_named : Str → Option Str → Bool
is_named id none = false
is_named id (some other) = other == id

unfoldable pub marked : (Entry UpdatePlan → Bool) → List (Entry UpdatePlan) → Str → Bool
marked p entries id = any (λ e. p e && is_named id (id_of e.name)) entries

unfoldable pub staged_goes : ℤ → (Str → Bool) → List (Entry UpdatePlan) → Str → Bool
staged_goes now protected entries id =
    marked (λ e. (judge now protected e).drop_staged) entries id
    || not (marked (λ e. (judge now protected e).known) entries id || protected id)

unfoldable pub swept_plans :
    ℤ → (Str → Bool) → Option (List (Entry UpdatePlan)) → Option (List (Entry UpdatePlan))
swept_plans now protected none = none
swept_plans now protected (some entries) =
    some (keep (λ e. e.held || not (judge now protected e).drop_record) entries)

unfoldable pub swept_staging :
    ℤ
    → (Str → Bool)
    → List (Entry UpdatePlan)
    → Option (List (Entry (Unit {0})))
    → Option (List (Entry (Unit {0})))
swept_staging now protected plans none = none
swept_staging now protected plans (some entries) =
    some (keep (λ e. e.held || not (staged_goes now protected plans e.name)) entries)

unfoldable pub swept_sessions : ℤ → Option (List (Entry Session)) → Option (List (Entry Session))
swept_sessions now none = none
swept_sessions now (some entries) = some (sweep_sessions now entries)

-- `sweep`
unfoldable pub protected_by : ℤ → Disk → Str → Bool
protected_by now disk id = is_protected disk.data_dir (live_sessions now (listing disk.sessions)) id

unfoldable pub sweep : ℤ → Disk → Disk
sweep now disk = record disk {
  plans = swept_plans now (protected_by now disk) disk.plans;
  staging = swept_staging now (protected_by now disk) (listing disk.plans) disk.staging;
  sessions = swept_sessions now disk.sessions;
}
