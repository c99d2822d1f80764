-- ===== src/Job/Refusal.antt =====
-- What a job refuses before it has done anything.
use ghostsnap.Prelude.{
  ◌*◌, ◌%◌, ◌^◌, ◌≡◌, refl, ◌∙◌, String, Bool, true, false, string_eq, Option, none, some, List, [],
  ◌∷◌, ◌++◌, arith, contains, trim, is_empty_text, parse_u64, ◌⊎◌, Bool-cases, Option-cases, inl,
  inr,
}
use ghostsnap.Errors.{Error, Result, ok, err}
use ghostsnap.Location.{RepositoryLocation}
use ghostsnap.Config.{
  merged, Job, JobDefaults, JobConfig, System, ResolvedJob, get_job, or_else, unwrap_or, split_unit,
  parse_duration, resolve, resolve_password, password_from_env, password_from_file,
}
use ghostsnap.Job.{Steps, run_single_job}
use ghostsnap.Job.Planning.{all_exist, check_paths, override_dry_run, plan_job}

-- An outcome that is no panic.
abbrev Ends {ℓ} : {A : Type ℓ} → Result A → Type ℓ
Ends {A = A} outcome = ((e : Error) × (outcome ≡ err e)) ⊎ ((a : A) × (outcome ≡ ok a))

parse_duration-Ends : (text : String) → Ends (parse_duration text)
unfolding parse_duration
parse_duration-Ends text = elim (Bool-cases (is_empty_text (trim text))) [
  | inl e ↦ inr (300, rw e refl)
  | inr e ↦ elim (Option-cases (parse_u64 (split_unit (trim text)).0)) [
    | inl failed ↦ inl (Error.other "Invalid duration number", rw (e, failed) refl)
    | inr (n, read) ↦ inr (n * (split_unit (trim text)).1 % 2 ^ 64, rw (e, read) refl)
  ]
]

record IsResolved (job : Job) (resolved : ResolvedJob) : Type 0 where
  paths : resolved.paths ≡ job.paths ++ job.extra_paths
  required : resolved.require_paths_exist ≡ job.require_paths_exist

resolve-Ends :
    (name : String) (job : Job) (defaults : JobDefaults)
    → ((e : Error) × (resolve name job defaults ≡ err e))
      ⊎ ((resolved : ResolvedJob) × (resolve name job defaults ≡ ok resolved)
          × IsResolved job resolved)
unfolding resolve merged
resolve-Ends name job defaults = elim (Option-cases (or_else job.repository defaults.repository)) [
  | inl e ↦ inl (Error.other "Job has no repository configured", rw e refl)
  | inr (repository, e) ↦ elim (parse_duration-Ends (unwrap_or job.pre_hook_timeout "5m")) [
    | inl (failure, pre) ↦ inl (failure, rw (e, pre) refl)
    | inr (n, pre) ↦ elim (parse_duration-Ends (unwrap_or job.post_hook_timeout "5m")) [
      | inl (failure, post) ↦ inl (failure, rw (e, pre, post) refl)
      | inr (m, post) ↦ inr (
        merged name job defaults repository n m,
        rw (e, pre, post) refl,
        record { paths = refl; required = refl },
      )
    ]
  ]
]

password_from_file-Ends :
    (system : System) (file : Option String) → Ends (password_from_file system file)
unfolding password_from_file
password_from_file-Ends system none = inl (Error.other "No password configured.", refl)
password_from_file-Ends system (some path) = elim (Option-cases (system.read_to_string path)) [
  | inl e ↦ inl (Error.other "Failed to read password file", rw e refl)
  | inr (text, e) ↦ inr (trim text, rw e refl)
]

resolve_password-Ends : (system : System) (job : ResolvedJob) → Ends (resolve_password system job)
unfolding resolve_password
resolve_password-Ends system job = elim (Option-cases (password_from_env system job.password_env)) [
  | inr (password, e) ↦ inr (password, rw (resolve_password, e) refl)
  | inl e ↦ rw (resolve_password, e) (password_from_file-Ends system job.password_file)
]

all_exist-contains :
    (system : System) (p : String) (ps : List String)
    → contains p ps ≡ true
    → system.path_exists p ≡ false
    → all_exist system ps ≡ false
all_exist-contains system p [] h gone = absurd (cc)
all_exist-contains system p (q ∷ ps) h gone =
    ground (arith, all_exist-contains system p ps, string_eq.beq_iff q p)

override_dry_run-IsResolved :
    (dry_run : Bool) (job : Job) (resolved : ResolvedJob)
    → IsResolved job resolved
    → IsResolved job (override_dry_run dry_run resolved)
unfolding override_dry_run
override_dry_run-IsResolved true job resolved is = record {
  paths = is.paths;
  required = is.required;
}
override_dry_run-IsResolved false job resolved is = is

plan_job-missing_path :
    (system : System) (parse_location : String → Result RepositoryLocation) (dry_run : Bool)
    (config : JobConfig) (name : String) (job : Job) (p : String)
    → get_job name config ≡ some job
    → job.require_paths_exist ≡ true
    → contains p (job.paths ++ job.extra_paths) ≡ true
    → system.path_exists p ≡ false
    → (e : Error) × (plan_job system parse_location dry_run config name ≡ err e)
unfolding plan_job check_paths
plan_job-missing_path system parse_location dry_run config name job p found required within gone =
    elim (resolve-Ends name job config.defaults) [
      | inl (failure, e) ↦ (failure, rw (found, e) refl)
      | inr (resolved, e, is) ↦
          let over = override_dry_run dry_run resolved in
          let kept = override_dry_run-IsResolved dry_run job resolved is in
          let missing : all_exist system over.paths ≡ false =
            rw kept.paths
              (all_exist-contains system p (job.paths ++ job.extra_paths) within gone) in
          let asked : over.require_paths_exist ≡ true = kept.required ∙ required in
          elim (resolve_password-Ends system over) [
            | inl (failure, h) ↦ (failure, rw (found, e, h) refl)
            | inr (password, h) ↦
                (Error.other "Required path does not exist", rw (found, e, h, asked, missing) refl)
          ]
    ]

-- A job that requires its paths, and of which one path (or extra path) does not exist, fails with an
-- error, and the world stays as it was: no hook has run and no repository was opened.
pub run_single_job-missing_path :
    {W R G : Type 0} (steps : Steps W R G) (dry_run : Bool) (config : JobConfig) (name : String)
    (job : Job) (p : String)
    → get_job name config ≡ some job
    → job.require_paths_exist ≡ true
    → contains p (job.paths ++ job.extra_paths) ≡ true
    → steps.system.path_exists p ≡ false
    → (w : W) → (e : Error) × (run_single_job steps dry_run config name w ≡ (err e, w))
unfolding run_single_job
run_single_job-missing_path steps dry_run config name job p found required within gone w =
    let (e, refused) =
      plan_job-missing_path steps.system steps.parse_location dry_run config name job p found
        required within gone in
    (e, rw refused refl)
