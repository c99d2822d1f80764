-- ===== src/Job.antt =====
-- cli/src/commands/job.rs: the order of the steps of a job, and the run of one or of all jobs. The steps
-- themselves are an interface; Retention and Pruning are two of them.
pub mod Planning
pub mod Retention
pub mod Sequence
pub mod Pruning
pub mod Refusal
use text.Mathlib.Text.{get?}
use ghostsnap.Prelude.{
  ℕ, suc, String, Bool, true, false, not, ◌&&◌, Option, none, some, List, [], ◌∷◌, keys, length,
  nat_beq, if◌then◌else◌, is_some,
}
use ghostsnap.Errors.{Error, Result, ok, err, panic, ok_or}
use ghostsnap.Action.{attempt, Action, ◌>>=◌, pure, lift, resume}
use ghostsnap.Location.{RepositoryLocation}
use ghostsnap.Job.Planning.{plan_job}
use ghostsnap.Hooks.{HookConfig, HookResult}
use ghostsnap.Config.{System, JobConfig, ResolvedJob, has_retention_policy}

-- The steps, over the state `W` of the world: `R` is an open repository, `G` a lock that is held.
pub record Steps (W R G : Type 0) : Type 0 where
  pub system : System
  pub parse_location : String → Result RepositoryLocation
  pub open_at_location : RepositoryLocation → String → Action W R
  pub local_path : R → Option String
  pub acquire : String → Action W G
  pub drop_lock : G → W → W
  pub run_backup : R → ResolvedJob → Action W String
  pub run_forget : R → ResolvedJob → Action W (ℕ × ℕ)
  pub run_prune : R → Action W (ℕ × ℕ)
  pub execute_hook : HookConfig → Action W HookResult

unfoldable pub hook_config : String → ℕ → ResolvedJob → HookConfig
hook_config command timeout job = record {
  command = command;
  timeout = timeout;
  shell = job.shell;
  working_dir = job.working_directory;
}

-- A slice of a text is a panic where it is out of range or cuts a character.
abbrev pub slice_or_panic : Option String → Result String
slice_or_panic none = panic
slice_or_panic (some slice) = ok slice

-- `&id[..8]`
unfoldable pub id_prefix : String → Result String
id_prefix id = slice_or_panic (get? id 0 8)

-- `RepositoryLock` is dropped at the end, whatever the outcome.
abbrev pub finish {ℓ} : {W : Type 0} {A : Type ℓ} → (W → W) → Result A × W → Result A × W
finish drop run = (run.0, drop run.1)

abbrev pub printed_prefix : {W : Type 0} → Option String → Action W Unit
printed_prefix none = pure tt
printed_prefix (some id) = do shown ← lift (id_prefix id); pure tt

module _ {W R G : Type 0} (steps : Steps W R G) where
  unfoldable pub pre_hook : ResolvedJob → Action W Unit
  unfolding hook_config
  pre_hook job = elim job.pre_hook [
    | none ↦ pure tt
    | some command ↦ do
      result ← steps.execute_hook (hook_config command job.pre_hook_timeout job)
      if not result.success && job.stop_on_pre_hook_failure
          then lift (err (Error.other "Pre-hook failed, aborting job"))
          else pure tt
  ]

  -- Its result is ignored.
  unfoldable pub post_hook : ResolvedJob → Action W Unit
  unfolding hook_config
  post_hook job = elim job.post_hook [
    | none ↦ pure tt
    | some command ↦ do
      ignored ← attempt (steps.execute_hook (hook_config command job.post_hook_timeout job))
      pure tt
  ]

  unfoldable pub forget_step : Option String → R → ResolvedJob → Action W Unit
  forget_step snapshot_id repo job =
      if is_some snapshot_id && has_retention_policy job
      then (do printed ← attempt (steps.run_forget repo job); pure tt)
      else pure tt

  unfoldable pub prune_step : Option String → R → ResolvedJob → Action W Unit
  prune_step snapshot_id repo job =
      if is_some snapshot_id && job.prune
      then (do printed ← attempt (steps.run_prune repo); pure tt)
      else pure tt

  -- From the backup to the end, under the lock.
  unfoldable pub run_locked : R → ResolvedJob → Action W Unit
  unfolding id_prefix forget_step prune_step post_hook
  run_locked repo job = do
    snapshot_id ← attempt (steps.run_backup repo job)
    shown ← printed_prefix snapshot_id
    forgotten ← forget_step snapshot_id repo job
    pruned ← prune_step snapshot_id repo job
    hooked ← post_hook job
    if is_some snapshot_id then pure tt else lift (err (Error.other "Backup failed"))

  -- A remote repository is not locked.
  unfoldable pub with_lock : Option String → R → ResolvedJob → Action W Unit
  unfolding run_locked
  with_lock none repo job = run_locked repo job
  with_lock (some path) repo job = do
    guard ← steps.acquire path
    (λ w. finish (steps.drop_lock guard) (run_locked repo job w))

  unfoldable pub run_single_job : Bool → JobConfig → String → Action W Unit
  unfolding plan_job pre_hook with_lock
  run_single_job dry_run config name = do
    plan ← lift (plan_job steps.system steps.parse_location dry_run config name)
    hooked ← pre_hook plan.0
    repo ← steps.open_at_location plan.2 plan.1
    with_lock (steps.local_path repo) repo plan.0

  abbrev pub count : Option {0} Unit → ℕ × ℕ → ℕ × ℕ
  count (some done) counts = (suc counts.0, counts.1)
  count none counts = (counts.0, suc counts.1)

  -- The loop of `run --all`: how many jobs succeeded, and how many failed.
  unfoldable pub run_jobs : Bool → JobConfig → List String → ℕ × ℕ → Action W (ℕ × ℕ)
  unfolding run_single_job
  run_jobs dry_run config [] counts = pure counts
  run_jobs dry_run config (name ∷ names) counts = do
    outcome ← attempt (run_single_job dry_run config name)
    run_jobs dry_run config names (count outcome counts)

  unfoldable pub run_all : Bool → JobConfig → Action W Unit
  unfolding run_jobs
  run_all dry_run config =
      if nat_beq (length (keys config.jobs)) 0
      then lift (err (Error.other "No jobs configured"))
      else (do
        counts ← run_jobs dry_run config (keys config.jobs) (0, 0)
        if nat_beq counts.1 0 then pure tt else lift (err (Error.other "job(s) failed")))

  -- `JobRunCommand::run`, with the configuration that was loaded.
  unfoldable pub run : Option String → Bool → Bool → JobConfig → Action W Unit
  unfolding run_all run_single_job
  run name all dry_run config = if all then run_all dry_run config else elim name [
    | none ↦ lift (err (Error.other "Job name required."))
    | some name ↦ run_single_job dry_run config name
  ]
