-- ===== src/Config.antt =====
-- cli/src/config.rs: the jobs of a configuration file, and a job with the defaults applied. A path is its
-- text. The environment, the file system and the reader of TOML are given.
use ghostsnap.Prelude.{
  ℕ, ◌*◌, ◌%◌, ◌^◌, String, Bool, ◌||◌, Option, none, some, List, [], ◌∷◌, ◌++◌, if◌then◌else◌,
  nat_beq, is_some, string_eq, Map, lookup, trim, is_empty_text, strip_last, parse_u64,
}
use ghostsnap.Errors.{Error, Result, ok, err, ok_or, ◌>>=◌}

pub record JobDefaults : Type 0 where
  pub repository : Option String
  pub password_env : Option String
  pub password_file : Option String
  pub shell : Option String

pub record Job : Type 0 where
  pub repository : Option String
  pub password_env : Option String
  pub password_file : Option String
  pub paths : List String
  pub extra_paths : List String
  pub tags : List String
  pub exclude : List String
  pub exclude_if_present : List String
  pub hostname : Option String
  pub one_file_system : Bool
  pub pre_hook : Option String
  pub post_hook : Option String
  pub pre_hook_timeout : Option String
  pub post_hook_timeout : Option String
  pub shell : Option String
  pub working_directory : Option String
  pub keep_last : Option ℕ
  pub keep_hourly : Option ℕ
  pub keep_daily : Option ℕ
  pub keep_weekly : Option ℕ
  pub keep_monthly : Option ℕ
  pub keep_yearly : Option ℕ
  pub prune : Bool
  pub require_paths_exist : Bool
  pub stop_on_pre_hook_failure : Bool
  pub dry_run : Bool

pub record JobConfig : Type 0 where
  pub version : ℕ
  pub defaults : JobDefaults
  pub jobs : Map String Job

-- A duration is its seconds.
pub record ResolvedJob : Type 0 where
  pub name : String
  pub repository : String
  pub password_env : Option String
  pub password_file : Option String
  pub paths : List String
  pub tags : List String
  pub exclude : List String
  pub exclude_if_present : List String
  pub hostname : Option String
  pub one_file_system : Bool
  pub pre_hook : Option String
  pub post_hook : Option String
  pub pre_hook_timeout : ℕ
  pub post_hook_timeout : ℕ
  pub shell : String
  pub working_directory : Option String
  pub keep_last : Option ℕ
  pub keep_hourly : Option ℕ
  pub keep_daily : Option ℕ
  pub keep_weekly : Option ℕ
  pub keep_monthly : Option ℕ
  pub keep_yearly : Option ℕ
  pub prune : Bool
  pub require_paths_exist : Bool
  pub stop_on_pre_hook_failure : Bool
  pub dry_run : Bool

-- What the program asks of the system: `std::env::var`, `fs::read_to_string`, `Path::exists`, `toml::from_str`.
pub record System : Type 0 where
  pub var : String → Option String
  pub read_to_string : String → Option String
  pub path_exists : String → Bool
  pub from_toml : String → Option JobConfig

-- `or_else` and `unwrap_or_else`
abbrev pub or_else {ℓ} : {A : Type ℓ} → Option A → Option A → Option A
or_else none other = other
or_else (some a) other = some a

abbrev pub unwrap_or {ℓ} : {A : Type ℓ} → Option A → A → A
unwrap_or none other = other
unwrap_or (some a) other = a

-- The number and the seconds of its unit: `num_str` and `unit`.
unfoldable pub split_unit : String → String × ℕ
split_unit s = elim (strip_last b's' s) [
  | some stripped ↦ (stripped, 1)
  | none ↦ elim (strip_last b'm' s) [
    | some stripped ↦ (stripped, 60)
    | none ↦ elim (strip_last b'h' s) [ some stripped ↦ (stripped, 3600) | none ↦ (s, 1) ]
  ]
]

-- The product wraps, as in a release build.
unfoldable pub parse_duration : String → Result ℕ
unfolding split_unit
parse_duration text =
    let s = trim text in
    let split = split_unit s in
    if is_empty_text s then ok 300 else (do
      num ← ok_or (parse_u64 split.0) (Error.other "Invalid duration number")
      ok (num * split.1 % 2 ^ 64))

-- The job with the defaults in place of what it leaves open.
unfoldable pub merged : String → Job → JobDefaults → String → ℕ → ℕ → ResolvedJob
merged name job defaults repository pre_hook_timeout post_hook_timeout = record {
  name = name;
  repository = repository;
  password_env = or_else job.password_env defaults.password_env;
  password_file = or_else job.password_file defaults.password_file;
  paths = job.paths ++ job.extra_paths;
  tags = job.tags;
  exclude = job.exclude;
  exclude_if_present = job.exclude_if_present;
  hostname = job.hostname;
  one_file_system = job.one_file_system;
  pre_hook = job.pre_hook;
  post_hook = job.post_hook;
  pre_hook_timeout = pre_hook_timeout;
  post_hook_timeout = post_hook_timeout;
  shell = unwrap_or (or_else job.shell defaults.shell) "/bin/sh";
  working_directory = job.working_directory;
  keep_last = job.keep_last;
  keep_hourly = job.keep_hourly;
  keep_daily = job.keep_daily;
  keep_weekly = job.keep_weekly;
  keep_monthly = job.keep_monthly;
  keep_yearly = job.keep_yearly;
  prune = job.prune;
  require_paths_exist = job.require_paths_exist;
  stop_on_pre_hook_failure = job.stop_on_pre_hook_failure;
  dry_run = job.dry_run;
}

-- `ResolvedJob::resolve`
unfoldable pub resolve : String → Job → JobDefaults → Result ResolvedJob
unfolding parse_duration merged
resolve name job defaults = do
  repository ←
      ok_or (or_else job.repository defaults.repository)
        (Error.other "Job has no repository configured")
  pre_hook_timeout ← parse_duration (unwrap_or job.pre_hook_timeout "5m")
  post_hook_timeout ← parse_duration (unwrap_or job.post_hook_timeout "5m")
  ok (merged name job defaults repository pre_hook_timeout post_hook_timeout)

unfoldable pub has_retention_policy : ResolvedJob → Bool
has_retention_policy j =
    is_some j.keep_last
    || is_some j.keep_hourly
    || is_some j.keep_daily
    || is_some j.keep_weekly
    || is_some j.keep_monthly
    || is_some j.keep_yearly

unfoldable pub get_job : String → JobConfig → Option Job
get_job name c = lookup name c.jobs

module _ (system : System) where
  -- The second half of `resolve_password`.
  unfoldable pub password_from_file : Option String → Result String
  password_from_file none = err (Error.other "No password configured.")
  password_from_file (some path) = do
    password ← ok_or (system.read_to_string path) (Error.other "Failed to read password file")
    ok (trim password)

  -- The variable's value, if a variable is named and set.
  unfoldable pub password_from_env : Option String → Option String
  password_from_env none = none
  password_from_env (some name) = system.var name

  unfoldable pub resolve_password : ResolvedJob → Result String
  unfolding password_from_env password_from_file
  resolve_password j = elim (password_from_env j.password_env) [
    | some password ↦ ok password
    | none ↦ password_from_file j.password_file
  ]

  unfoldable pub load : String → Result JobConfig
  load path = do
    content ← ok_or (system.read_to_string path) (Error.other "Failed to read config file")
    config ← ok_or (system.from_toml content) (Error.other "Failed to parse config file")
    if nat_beq config.version 1 then ok config else err (Error.other "Unsupported config version")

  unfoldable pub config_search_paths : List String
  config_search_paths =
      let fixed = "/etc/ghostsnap/jobs.toml" ∷ "./ghostsnap.toml" ∷ [] in
      elim (system.var "GHOSTSNAP_CONFIG") [ some path ↦ path ∷ fixed | none ↦ fixed ]

  -- The loop of `find_and_load`: the first path that exists is loaded, or fails.
  unfoldable pub load_first : List String → Result (JobConfig × String)
  unfolding load
  load_first [] = err (Error.other "No configuration file found.")
  load_first (path ∷ rest) =
      let others = load_first rest in
      if system.path_exists path then (do config ← load path; ok (config, path)) else others

  unfoldable pub find_and_load : Result (JobConfig × String)
  unfolding load_first config_search_paths
  find_and_load = load_first config_search_paths

  -- `load_config` of cli/src/commands/job.rs
  unfoldable pub load_config : Option String → Result (JobConfig × String)
  unfolding load find_and_load
  load_config (some path) = do config ← load path; ok (config, path)
  load_config none = find_and_load
