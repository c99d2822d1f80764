-- ===== src/Job/Planning.antt =====
-- cli/src/commands/job.rs: what `run_single_job` settles before it does anything.
use ghostsnap.Prelude.{String, Bool, true, not, ◌&&◌, List, [], ◌∷◌, if◌then◌else◌}
use ghostsnap.Errors.{Error, Result, ok, err, ok_or, ◌>>=◌}
use ghostsnap.Location.{RepositoryLocation}
use ghostsnap.Config.{System, JobConfig, ResolvedJob, get_job, resolve, resolve_password}

-- Whether every path is there.
abbrev pub all_exist : System → List String → Bool
all_exist system [] = true
all_exist system (p ∷ ps) = system.path_exists p && all_exist system ps

unfoldable pub check_paths : System → ResolvedJob → Result {0} Unit
check_paths system job =
    if not job.require_paths_exist
    then ok tt
    else (if all_exist system job.paths
        then ok tt
        else err (Error.other "Required path does not exist"))

unfoldable pub override_dry_run : Bool → ResolvedJob → ResolvedJob
override_dry_run dry_run job = if dry_run then record job { dry_run = true } else job

-- What is read before anything is done: the job, its password and the repository's location.
unfoldable pub plan_job :
    System
    → (String → Result RepositoryLocation)
    → Bool
    → JobConfig
    → String
    → Result (ResolvedJob × String × RepositoryLocation)
unfolding get_job resolve override_dry_run resolve_password check_paths
plan_job system parse_location dry_run config name = do
  job ← ok_or (get_job name config) (Error.other "Job not found")
  resolved ← resolve name job config.defaults
  let overridden = override_dry_run dry_run resolved
  password ← resolve_password system overridden
  checked ← check_paths system overridden
  location ← parse_location overridden.repository
  ok (overridden, password, location)
