-- ===== src/Tests/JobTests.antt =====
-- The theorems on jobs at concrete inputs. The world is the log of the steps that have run, the last one
-- first; the backup of a job fails where the job has no path.
use text.Mathlib.Text.{get?}
use mathlib.Core.Path.{subst}
use ghostsnap.Prelude.{
  ℕ, ◌/◌, ◌≡◌, refl, String, true, false, none, some, List, [], ◌∷◌, ◌==◌, string_eq, contains,
  list_eq, if◌then◌else◌,
}
use ghostsnap.Errors.{Error, Result, ok, err}
use ghostsnap.Location.{local}
use ghostsnap.Snapshot.{Snapshot}
use ghostsnap.Config.{
  resolve, parse_duration, split_unit, resolve_password, password_from_env, System, Job,
  JobDefaults, JobConfig, ResolvedJob, merged, get_job, has_retention_policy,
}
use ghostsnap.Hooks.{
  HookConfig, HookResult, Processes, exited, IsConsistent, execute_hook, hook_result, success,
  failure, execute_hook-IsConsistent,
}
use ghostsnap.Job.{
  pre_hook, with_lock, forget_step, prune_step, post_hook, hook_config, id_prefix, Steps,
  run_locked, run_single_job, run_all,
}
use ghostsnap.Job.Sequence.{NoPanic, run_locked_lem, run_all_lem}
use ghostsnap.Job.Planning.{plan_job, override_dry_run, check_paths}
use ghostsnap.Job.Refusal.{run_single_job-missing_path}
use ghostsnap.Job.Retention.{Dates, keep_ids}
use ghostsnap.Job.Retention.Kept.{contains-keep_ids}

abbrev Log : Type 0
Log = List String

abbrev log_system : System
log_system = record {
  var = λ name. if name == "PW" then some "secret" else none;
  read_to_string = λ path. none;
  path_exists = λ path. path == "/a";
  from_toml = λ text. none;
}

abbrev quick : HookResult
quick = record {
  success = true;
  exit_code = some 0;
  stdout = "";
  stderr = "";
  duration = 0;
  timed_out = false;
}

abbrev backup_of : List String → Result String
backup_of [] = err (Error.other "nothing to back up")
backup_of (p ∷ ps) = ok "01234567"

abbrev steps : Steps Log Unit Unit
steps = record {
  system = log_system;
  parse_location = λ text. ok (local text);
  open_at_location = λ location password w. (ok tt, "open" ∷ w);
  local_path = λ repo. some "/r";
  acquire = λ path w. (ok tt, "lock" ∷ w);
  drop_lock = λ guard w. "unlock" ∷ w;
  run_backup = λ repo job w. (backup_of job.paths, "backup" ∷ w);
  run_forget = λ repo job w. (err (Error.other "unreadable"), "forget" ∷ w);
  run_prune = λ repo w. (ok (0, 0), "prune" ∷ w);
  execute_hook = λ config w. (ok quick, "hook" ∷ w);
}

abbrev job : Job
job = record {
  repository = some "/r";
  password_env = some "PW";
  password_file = none;
  paths = "/a" ∷ [];
  extra_paths = [];
  tags = [];
  exclude = [];
  exclude_if_present = [];
  hostname = none;
  one_file_system = false;
  pre_hook = none;
  post_hook = some "echo";
  pre_hook_timeout = none;
  post_hook_timeout = some "30s";
  shell = none;
  working_directory = none;
  keep_last = none;
  keep_hourly = none;
  keep_daily = some 1;
  keep_weekly = none;
  keep_monthly = none;
  keep_yearly = none;
  prune = true;
  require_paths_exist = true;
  stop_on_pre_hook_failure = true;
  dry_run = false;
}

abbrev defaults : JobDefaults
defaults = record { repository = none; password_env = none; password_file = none; shell = none }

abbrev resolved : ResolvedJob
resolved = merged "j" job defaults "/r" 300 30

no_panic : NoPanic steps tt resolved
unfolding merged
no_panic = record {
  backup = λ w h. cc;
  forget = λ w h. cc;
  prune = λ w h. cc;
  hook = λ config w h. cc;
  ids = λ w id h.
      let is : "01234567" ≡ id = cc in
      ("01234567", subst (λ i. get? i 0 8 ≡ some "01234567") is refl);
}

run_locked_lem_example :
    run_locked steps tt resolved [] ≡ (ok tt, "hook" ∷ "prune" ∷ "forget" ∷ "backup" ∷ [])
unfolding merged has_retention_policy
run_locked_lem_example = run_locked_lem steps tt resolved no_panic []

abbrev bare : Job
bare = record job { paths = "/b" ∷ [] }

abbrev config : JobConfig
config = record { version = 1; defaults = defaults; jobs = ("j", job) ∷ ("k", bare) ∷ [] }

run_single_job-missing_path_example :
    (e : Error) × (run_single_job steps false config "k" [] ≡ (err e, []))
run_single_job-missing_path_example =
    run_single_job-missing_path steps false config "k" bare "/b" (unfold get_job in refl) refl refl
      refl []

-- The first job runs to its end, the second is refused.
run_all_lem_example : run_all steps false config [] ≡ (
  err (Error.other "job(s) failed"),
  "unlock" ∷ "hook" ∷ "prune" ∷ "forget" ∷ "backup" ∷ "lock" ∷ "open" ∷ [],
)
unfolding run_single_job plan_job get_job resolve parse_duration split_unit merged override_dry_run
    resolve_password password_from_env check_paths pre_hook with_lock run_locked forget_step
    prune_step post_hook hook_config id_prefix has_retention_policy
run_all_lem_example =
    run_all_lem steps false config [] "j" job (("k", bare) ∷ []) (λ h. cc, (λ h. cc, tt)) refl

abbrev dates : Dates
dates = record {
  date_naive = λ t. t / 10;
  iso_year = λ t. 0;
  iso_week = λ t. t / 70;
  month = λ t. t / 300;
  year = λ t. t / 3650;
}

abbrev taken : String → ℕ → Snapshot
taken id time = record {
  id = id;
  parent = none;
  tree = [];
  paths = [];
  hostname = "h";
  username = "u";
  time = time;
  tags = [];
  excludes = [];
}

-- One day is kept, of two.
contains-keep_ids_example :
    contains "a" (keep_ids dates resolved (taken "c" 15 ∷ taken "b" 11 ∷ taken "a" 5 ∷ [])) ≡ false
unfolding merged has_retention_policy
contains-keep_ids_example =
    contains-keep_ids dates resolved (taken "c" 15 ∷ taken "b" 11 ∷ taken "a" 5 ∷ []) "a"

abbrev processes : Processes Unit
processes = record {
  spawn = λ config w. (ok tt, w);
  wait = λ config w. ((exited (some 3) [] [], 7), w);
  from_utf8_lossy = λ bytes. "";
}

abbrev echo : HookConfig
echo = record { command = "echo"; timeout = 5; shell = "/bin/sh"; working_dir = none }

abbrev failed_hook : HookResult
failed_hook = record {
  success = false;
  exit_code = some 3;
  stdout = "";
  stderr = "";
  duration = 7;
  timed_out = false;
}

hook_ran : execute_hook processes echo tt ≡ (ok failed_hook, tt)
unfolding execute_hook hook_result success failure
hook_ran = refl

execute_hook-IsConsistent_example : IsConsistent failed_hook
execute_hook-IsConsistent_example =
    execute_hook-IsConsistent processes echo tt tt failed_hook hook_ran
