-- ===== src/Examples/PlanRuns.antt =====
-- Two checks an hour apart, and a sweep while a session works.
use relkit.Prelude.{
  arith, ◌<ℤ◌, ◌≡◌, refl, true, false, Option, none, some, List, [], ◌∷◌, ◌++◌, ℤ, pos, ◌+ℤ◌, Str,
  str, In, here, there,
}
use relkit.Rup.{VersionNode, binary}
use relkit.Inprocess.{UpdateAvailable}
use relkit.Plans.{plan_ttl, UpdatePlan, PlannedFile, Disk, Entry, Session, copying, listing}
use relkit.Plans.Build.{Sealing, build_plan, list_dir}
use relkit.Plans.Repeat.{IsSameTarget, build_plan-repeated}
use relkit.Plans.Sweep.{sweep, protects}
use relkit.Plans.Spared.{IsLive, records_of, staged_of, sweep-spares}
use relkit.Plans.Bounded.{IsKept, sweep-IsKept}

abbrev node : VersionNode
node = record {
  version = str "2";
  code = pos 2;
  min_from = pos 0;
  yanked = false;
  manifest = none;
  released_at = [];
  notes = [];
  notes_url = [];
  resolution_digest = [];
  operator_deployment_id = [];
  resolution_identity = [];
}

abbrev offer : UpdateAvailable
offer = record {
  target = node;
  manifest = record {
    schema = [];
    product = [];
    version = [];
    code = pos 2;
    released_at = [];
    notes = [];
    artifacts = [];
  };
  artifact = record {
    id = [];
    filename = str "app";
    size = pos 1;
    sha256 = str "aB";
    kind = binary;
    selectors = [];
    urls = [];
  };
  mandatory = false;
  remaining_hops = 0;
  sequence = pos 1;
  prior_release_notes = [];
}

abbrev sealing : Sealing
sealing = record { mac = λ key bytes. key ++ bytes; marshal_plan = λ plan. plan.plan_id }

abbrev empty_disk : Disk
empty_disk = record {
  data_dir = str "d";
  plans = some [];
  sessions = none;
  staging = none;
  size_of = λ path. none;
}

abbrev issued_plan : UpdatePlan
issued_plan = record {
  plan_id = str "a";
  product = str "p";
  channel = str "c";
  version = str "2";
  code = pos 2;
  sequence = pos 1;
  mandatory = false;
  remaining_hops = 0;
  release_notes_markdown = [];
  release_notes_url = [];
  files =
      record {
        name = str "app";
        size = pos 1;
        sha256_hex = str "aB";
        urls = [];
        local_path = [];
        downloaded = false;
        kind = str "binary";
      }
      ∷ [];
  created_at = some (pos 10);
  expires_at = some (pos 86400000000010);
  plan_hmac = str "ka";
}

abbrev again : UpdatePlan
again = record issued_plan { expires_at = some (pos 86400000000020) }

abbrev stored : UpdatePlan → Disk
stored plan = record empty_disk {
  plans = some (
      record {
        name = str "a.pb";
        is_dir = false;
        mod_time = pos 0;
        content = some plan;
        held = false;
      }
      ∷ []);
}

first_check :
    build_plan sealing (str "k") (str "a") (str "p") (str "c") offer (pos 10) empty_disk
    ≡ some (issued_plan, stored issued_plan)
unfolding build_plan relkit.Plans.Filename.validate_artifact_filename relkit.Prelude.Text.has_prefix
    relkit.Plans.Filename.with_slashes relkit.Prelude.Text.split relkit.Plans.Filename.legal_part
    relkit.Plans.Filename.is_plain relkit.Prelude.◌==◌ relkit.Plans.Filename.is_reserved
    relkit.Prelude.Text.clean relkit.Plans.Build.saved relkit.Plans.Build.issued
    relkit.Plans.Build.save_plan relkit.Plans.Build.sealed relkit.Plans.Build.put_entry
    relkit.Plans.Build.reuse_or relkit.Plans.Build.hmac_plan relkit.Plans.Build.reusable_plan
    relkit.Plans.Build.scan_plans list_dir relkit.Plans.Build.answers
    relkit.Plans.Build.artifact_kind_string relkit.Plans.Build.beats relkit.Plans.Build.better_of
    relkit.Plans.Build.candidate relkit.Plans.Build.fresh_plan relkit.Plans.Build.is_current
    relkit.Plans.Build.planned_file relkit.Plans.Build.qualified relkit.Plans.Build.read_names
    relkit.Plans.Build.refresh_file relkit.Plans.Build.refresh_files relkit.Plans.Build.refresh_plan
    relkit.Plans.Build.verify_plan relkit.Plans.Build.with_id relkit.Plans.Filename.before_dot
    relkit.Plans.Filename.windows_reserved relkit.Plans.count_ready relkit.Plans.equal_fold
    relkit.Plans.find_entry relkit.Plans.id_of relkit.Plans.load_plan relkit.Plans.plan_file_ready
    relkit.Plans.same_file relkit.Plans.same_plan_files ◌+ℤ◌ relkit.Prelude.Sorting.insert_by
    relkit.Prelude.Sorting.sort_by relkit.Prelude.ltb_str relkit.Prelude.Text.clean_parts
    relkit.Prelude.Text.clean_step relkit.Prelude.Text.climb relkit.Prelude.Text.has_suffix
    relkit.Prelude.Text.join relkit.Prelude.Text.onto_first relkit.Prelude.Text.skip
    relkit.Prelude.Text.to_lower relkit.Prelude.Text.trim_prefix relkit.Prelude.Text.trim_suffix
first_check = refl

second_check :
    build_plan sealing (str "k") (str "b") (str "p") (str "c") offer (pos 20) (stored issued_plan)
    ≡ some (again, stored again)
unfolding build_plan relkit.Plans.Filename.validate_artifact_filename relkit.Prelude.Text.has_prefix
    relkit.Plans.Filename.with_slashes relkit.Prelude.Text.split relkit.Plans.Filename.legal_part
    relkit.Plans.Filename.is_plain relkit.Prelude.◌==◌ relkit.Plans.Filename.is_reserved
    relkit.Prelude.Text.clean relkit.Plans.Build.saved relkit.Plans.Build.issued
    relkit.Plans.Build.save_plan relkit.Plans.Build.sealed relkit.Plans.Build.put_entry
    relkit.Plans.Build.reuse_or relkit.Plans.Build.hmac_plan relkit.Plans.Build.reusable_plan
    relkit.Plans.Build.scan_plans list_dir relkit.Plans.Build.answers
    relkit.Plans.Build.artifact_kind_string relkit.Plans.Build.beats relkit.Plans.Build.better_of
    relkit.Plans.Build.candidate relkit.Plans.Build.fresh_plan relkit.Plans.Build.is_current
    relkit.Plans.Build.planned_file relkit.Plans.Build.qualified relkit.Plans.Build.read_names
    relkit.Plans.Build.refresh_file relkit.Plans.Build.refresh_files relkit.Plans.Build.refresh_plan
    relkit.Plans.Build.verify_plan relkit.Plans.Build.with_id relkit.Plans.Filename.before_dot
    relkit.Plans.Filename.windows_reserved relkit.Plans.count_ready relkit.Plans.equal_fold
    relkit.Plans.find_entry relkit.Plans.id_of relkit.Plans.load_plan relkit.Plans.plan_file_ready
    relkit.Plans.same_file relkit.Plans.same_plan_files ◌+ℤ◌ relkit.Prelude.Sorting.insert_by
    relkit.Prelude.Sorting.sort_by relkit.Prelude.ltb_str relkit.Prelude.Text.clean_parts
    relkit.Prelude.Text.clean_step relkit.Prelude.Text.climb relkit.Prelude.Text.has_suffix
    relkit.Prelude.Text.join relkit.Prelude.Text.onto_first relkit.Prelude.Text.skip
    relkit.Prelude.Text.to_lower relkit.Prelude.Text.trim_prefix relkit.Prelude.Text.trim_suffix
second_check = refl

same_offer : IsSameTarget sealing (str "k") (str "p") (str "c") offer offer
unfolding relkit.Plans.same_file relkit.Prelude.◌==◌ relkit.Plans.Build.planned_file
    relkit.Plans.equal_fold relkit.Prelude.Text.to_lower relkit.Plans.Build.artifact_kind_string
same_offer = record { same_code = refl; same_bytes = refl }

in_time : pos 20 <ℤ pos 10 +ℤ plan_ttl
unfolding ◌+ℤ◌
in_time = omega arith

build_plan-repeated_example :
    In (str "a") (list_dir (stored issued_plan))
    × (list_dir (stored again) ≡ list_dir (stored issued_plan))
build_plan-repeated_example =
    build_plan-repeated sealing (str "k") (str "p") (str "c") (str "a") (str "b") offer offer
      (pos 10) (pos 20) empty_disk (stored issued_plan) (stored again) issued_plan again same_offer
      in_time first_check second_check

abbrev session : Session
session = record {
  plan_id = str "a";
  phase = copying;
  started_at = some (pos 10);
  heartbeat_at = none;
  staged_root = [];
}

abbrev staged : Str → Entry (Unit {0})
staged id = record { name = id; is_dir = true; mod_time = pos 0; content = none; held = false }

abbrev session_entry : Entry Session
session_entry = record {
  name = str "s.pb";
  is_dir = false;
  mod_time = pos 0;
  content = some session;
  held = false;
}

abbrev busy : Disk
busy = record (stored issued_plan) {
  sessions = some (session_entry ∷ []);
  staging = some (staged (str "a") ∷ staged (str "b") ∷ []);
}

copying-IsLive : IsLive (pos 20) busy session
unfolding relkit.Prelude.Text.has_suffix relkit.Plans.Sweep.session_is_live
    relkit.Plans.Sweep.is_working relkit.Prelude.◌-ℤ◌ relkit.Plans.Sweep.session_last_sign
copying-IsLive = record {
  entry = session_entry;
  is_listed = here refl;
  is_file = refl;
  is_record = refl;
  reads = refl;
  is_alive = refl;
}

a_is_used : protects (str "d") (str "a") session ≡ true
unfolding protects relkit.Prelude.◌==◌
a_is_used = refl

sweep-spares_example :
    (records_of (str "a") (sweep (pos 20) busy) ≡ records_of (str "a") busy)
    × (staged_of (str "a") (sweep (pos 20) busy) ≡ staged_of (str "a") busy)
sweep-spares_example = sweep-spares (pos 20) busy session (str "a") copying-IsLive a_is_used

only_a : listing (sweep (pos 20) busy).staging ≡ staged (str "a") ∷ []
unfolding sweep relkit.Plans.Sweep.swept_staging relkit.Plans.Sweep.staged_goes
    relkit.Plans.Sweep.marked relkit.Plans.Sweep.judge relkit.Prelude.Text.has_suffix
    relkit.Plans.Sweep.judge_named relkit.Plans.id_of relkit.Plans.Sweep.judge_record
    relkit.Plans.Sweep.judge_expiry relkit.Plans.Sweep.protected_by relkit.Plans.Sweep.is_protected
    relkit.Plans.Sweep.live_sessions relkit.Plans.Sweep.read_sessions relkit.Plans.Sweep.readable
    relkit.Plans.Sweep.session_is_live relkit.Plans.Sweep.is_working relkit.Plans.Sweep.is_named
    relkit.Plans.Sweep.is_newest relkit.Plans.Sweep.newer_of relkit.Plans.Sweep.newest_of
    relkit.Plans.Sweep.plan_staging_dir protects relkit.Plans.Sweep.session_goes
    relkit.Plans.Sweep.session_last_sign relkit.Plans.Sweep.sweep_sessions
    relkit.Plans.Sweep.swept_plans relkit.Plans.Sweep.swept_sessions relkit.Prelude.◌-ℤ◌
    relkit.Prelude.◌==◌ relkit.Prelude.Text.clean relkit.Prelude.Text.clean_parts
    relkit.Prelude.Text.clean_step relkit.Prelude.Text.climb relkit.Prelude.Text.has_prefix
    relkit.Prelude.Text.join relkit.Prelude.Text.onto_first relkit.Prelude.Text.skip
    relkit.Prelude.Text.split relkit.Prelude.Text.trim_prefix relkit.Prelude.Text.trim_suffix
only_a = refl

a_is_left : In (staged (str "a")) (listing (sweep (pos 20) busy).staging)
unfolding sweep relkit.Plans.Sweep.swept_staging relkit.Plans.Sweep.staged_goes
    relkit.Plans.Sweep.marked relkit.Plans.Sweep.judge relkit.Prelude.Text.has_suffix
    relkit.Plans.Sweep.judge_named relkit.Plans.id_of relkit.Plans.Sweep.judge_record
    relkit.Plans.Sweep.judge_expiry relkit.Plans.Sweep.protected_by relkit.Plans.Sweep.is_protected
    relkit.Plans.Sweep.live_sessions relkit.Plans.Sweep.read_sessions relkit.Plans.Sweep.readable
    relkit.Plans.Sweep.session_is_live relkit.Plans.Sweep.is_working relkit.Plans.Sweep.is_named
    relkit.Plans.Sweep.is_newest relkit.Plans.Sweep.newer_of relkit.Plans.Sweep.newest_of
    relkit.Plans.Sweep.plan_staging_dir protects relkit.Plans.Sweep.session_goes
    relkit.Plans.Sweep.session_last_sign relkit.Plans.Sweep.sweep_sessions
    relkit.Plans.Sweep.swept_plans relkit.Plans.Sweep.swept_sessions relkit.Prelude.◌-ℤ◌
    relkit.Prelude.◌==◌ relkit.Prelude.Text.clean relkit.Prelude.Text.clean_parts
    relkit.Prelude.Text.clean_step relkit.Prelude.Text.climb relkit.Prelude.Text.has_prefix
    relkit.Prelude.Text.join relkit.Prelude.Text.onto_first relkit.Prelude.Text.skip
    relkit.Prelude.Text.split relkit.Prelude.Text.trim_prefix relkit.Prelude.Text.trim_suffix
a_is_left = here refl

sweep-IsKept_example : IsKept (pos 20) busy (staged (str "a"))
sweep-IsKept_example = sweep-IsKept (pos 20) busy (staged (str "a")) a_is_left
