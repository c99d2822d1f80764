-- ===== src/Job/Sequence.antt =====
-- The order of a job's steps: what runs after what, and what a failure stops.
use text.Mathlib.Text.{get?}
use ghostsnap.Prelude.{
  ◌≡◌, ◌≢◌, refl, String, Bool, true, false, ◌&&◌, Option, none, some, List, [], ◌∷◌, arith,
  if◌then◌else◌, is_some, Bool-cases, Option-cases, inl, inr, keys, ℕ, suc, ◌+◌, ◌∙◌, ap, length,
  nat_beq,
}
use ghostsnap.Errors.{Error, Result, ok, err, panic, Result-cases}
use ghostsnap.Action.{Action, caught, pure, lift, resume}
use ghostsnap.Config.{Job, JobConfig, ResolvedJob, has_retention_policy}
use ghostsnap.Job.{
  Steps, slice_or_panic, hook_config, id_prefix, printed_prefix, post_hook, forget_step, prune_step,
  run_locked, run_single_job, run_jobs, run_all, count,
}

abbrev pub returned : {A : Type 0} → Result A → Option A
returned panic = none
returned (err failure) = none
returned (ok a) = some a

caught_lem :
    {W A : Type 0} (outcome : Result A) (w : W)
    → outcome ≢ panic
    → caught (outcome, w) ≡ (ok (returned outcome), w)
caught_lem panic w h = absurd (h refl)
caught_lem (err failure) w h = refl
caught_lem (ok a) w h = refl

after :
    {W A B : Type 0} {run : Result A × W} (rest : A → Action W B) {a : A} {w : W}
    → run ≡ (ok a, w)
    → resume run rest ≡ rest a w
after rest h = ap (λ ran. resume ran rest) h

printed_prefix_lem :
    {W : Type 0} (id prefix : String) (w : W)
    → get? id 0 8 ≡ some prefix
    → printed_prefix (some id) w ≡ (ok tt, w)
unfolding id_prefix
printed_prefix_lem id prefix w h = ap (λ o. resume (slice_or_panic o, w) (λ shown. pure tt)) h

module _ {W R G : Type 0} (steps : Steps W R G) where
  -- The steps under the lock end, with a value or an error, and the id of a snapshot has eight bytes.
  pub record NoPanic (repo : R) (job : ResolvedJob) : Type 0 where
    pub backup : (w : W) → (steps.run_backup repo job w).0 ≢ panic
    pub forget : (w : W) → (steps.run_forget repo job w).0 ≢ panic
    pub prune : (w : W) → (steps.run_prune repo w).0 ≢ panic
    pub hook : (config : _) (w : W) → (steps.execute_hook config w).0 ≢ panic
    pub ids :
        (w : W) (id : String)
        → (steps.run_backup repo job w).0 ≡ ok id
        → (prefix : String) × (get? id 0 8 ≡ some prefix)

  -- The world after the post-hook, if there is one.
  abbrev pub hooked : ResolvedJob → W → W
  hooked job w = elim job.post_hook [
    | none ↦ w
    | some command ↦ (steps.execute_hook (hook_config command job.post_hook_timeout job) w).1
  ]

  abbrev pub forgotten : Bool → R → ResolvedJob → W → W
  forgotten succeeded repo job w =
      if succeeded && has_retention_policy job then (steps.run_forget repo job w).1 else w

  abbrev pub pruned : Bool → R → ResolvedJob → W → W
  pruned succeeded repo job w = if succeeded && job.prune then (steps.run_prune repo w).1 else w

  module _ (repo : R) (job : ResolvedJob) (h : NoPanic repo job) where
    post_hook_lem : (w : W) → post_hook steps job w ≡ (ok tt, hooked job w)
    unfolding post_hook
    post_hook_lem w = elim (Option-cases job.post_hook) [
      | inl e ↦ rw e refl
      | inr (command, e) ↦
          let config = hook_config command job.post_hook_timeout job in
          let ran = steps.execute_hook config w in
          rw (e, caught_lem ran.0 ran.1 (h.hook config w)) refl
    ]

    forget_step_lem :
        (id : Option String) (w : W)
        → forget_step steps id repo job w ≡ (ok tt, forgotten (is_some id) repo job w)
    unfolding forget_step
    forget_step_lem id w = elim (Bool-cases (is_some id && has_retention_policy job)) [
      | inl e ↦
          let ran = steps.run_forget repo job w in rw (e, caught_lem ran.0 ran.1 (h.forget w)) refl
      | inr e ↦ rw e refl
    ]

    prune_step_lem :
        (id : Option String) (w : W)
        → prune_step steps id repo job w ≡ (ok tt, pruned (is_some id) repo job w)
    unfolding prune_step
    prune_step_lem id w = elim (Bool-cases (is_some id && job.prune)) [
      | inl e ↦ let ran = steps.run_prune repo w in rw (e, caught_lem ran.0 ran.1 (h.prune w)) refl
      | inr e ↦ rw e refl
    ]

    -- If no step panics, a job that has its lock comes to its end: after a backup that succeeded it forgets, if
    -- it has a retention policy, then prunes, if it is to, and after any backup it runs the post-hook, whether
    -- or not these steps failed. It fails exactly if the backup did.
    pub run_locked_lem :
        (w : W)
        → let ran = steps.run_backup repo job w in
          let succeeded = is_some (returned ran.0) in
          run_locked steps repo job w ≡ (
            (if succeeded then ok tt else err (Error.other "Backup failed")),
            hooked job (pruned succeeded repo job (forgotten succeeded repo job ran.1)),
          )
    unfolding run_locked id_prefix
    run_locked_lem w =
        let ran = steps.run_backup repo job w in
        elim (Result-cases ran.0) [
          | inl e ↦ absurd (h.backup w e)
          | inr (inl (failure, e)) ↦
              rw (caught_lem ran.0 ran.1 (h.backup w), e, post_hook_lem ran.1) refl
          | inr (inr (id, e)) ↦
              let (prefix, shown) = h.ids w id e in
              let w₁ = forgotten true repo job ran.1 in
              let w₂ = pruned true repo job w₁ in
              rw (caught_lem ran.0 ran.1 (h.backup w), e)
                (after _ (printed_prefix_lem id prefix ran.1 shown)
                  ∙ after _ (forget_step_lem (some id) ran.1)
                  ∙ after _ (prune_step_lem (some id) w₁)
                  ∙ after _ (post_hook_lem w₂))
        ]

  abbrev pub succeeds : {A : Type 0} → Result A → Bool
  succeeds outcome = is_some (returned outcome)

  -- The runs of the jobs, one after the other: the world at the end, and whether all succeeded.
  abbrev pub last_world : Bool → JobConfig → List String → W → W
  last_world dry_run config [] w = w
  last_world dry_run config (name ∷ names) w =
      last_world dry_run config names (run_single_job steps dry_run config name w).1

  abbrev pub all_succeed : Bool → JobConfig → List String → W → Bool
  all_succeed dry_run config [] w = true
  all_succeed dry_run config (name ∷ names) w =
      let ran = run_single_job steps dry_run config name w in
      succeeds ran.0 && all_succeed dry_run config names ran.1

  total_count :
      (outcome : Option Unit) (counts : ℕ × ℕ) (n : ℕ)
      → (count steps outcome counts).0 + (count steps outcome counts).1 + n
        ≡ counts.0 + counts.1 + suc n
  total_count none counts n = omega arith
  total_count (some u) counts n = omega arith

  failed_count :
      (outcome : Option Unit) (counts : ℕ × ℕ) (others : Bool)
      → (nat_beq (count steps outcome counts).1 0 && others)
        ≡ (nat_beq counts.1 0 && (is_some outcome && others))
  failed_count none counts others = ground arith
  failed_count (some u) counts others = ground arith

  -- No run of a job on the way panics.
  abbrev pub AllEnd : Bool → JobConfig → List String → W → Type 0
  AllEnd dry_run config [] w = Unit
  AllEnd dry_run config (name ∷ names) w =
      let ran = run_single_job steps dry_run config name w in
      (ran.0 ≢ panic) × AllEnd dry_run config names ran.1

  module _ (dry_run : Bool) (config : JobConfig) where
    -- What the loop over the jobs comes to: every job has run, and the counts tell of all of them.
    record IsRun (names : List String) (counts : ℕ × ℕ) (w : W) (run : Result (ℕ × ℕ) × W)
        : Type 0 where
      result : ℕ × ℕ
      is : run ≡ (ok result, last_world dry_run config names w)
      jobs : result.0 + result.1 ≡ counts.0 + counts.1 + length names
      failed : nat_beq result.1 0 ≡ (nat_beq counts.1 0 && all_succeed dry_run config names w)

    run_jobs_lem :
        (names : List String) (counts : ℕ × ℕ) (w : W)
        → AllEnd dry_run config names w
        → IsRun names counts w (run_jobs steps dry_run config names counts w)
    unfolding run_jobs
    run_jobs_lem [] counts w total = record {
      result = counts;
      is = refl;
      jobs = omega arith;
      failed = ground arith;
    }
    run_jobs_lem (name ∷ names) counts w total =
        let ran = run_single_job steps dry_run config name w in
        let rest = run_jobs_lem names (count steps (returned ran.0) counts) ran.1 total.1 in
        record {
          result = rest.result;
          is = rw (caught_lem ran.0 ran.1 total.0) rest.is;
          jobs = rest.jobs ∙ total_count (returned ran.0) counts (length names);
          failed = rest.failed ∙ failed_count (returned ran.0) counts _;
        }

    by_outcome :
        (b : Bool) (w : W)
        → (if b then pure tt else lift (err (Error.other "job(s) failed"))) w
          ≡ ((if b then ok tt else err (Error.other "job(s) failed")), w)
    by_outcome true w = refl
    by_outcome false w = refl

    -- If no job panics, `run --all` of a configuration that has jobs runs each of them in turn, also
    -- after one that failed, and succeeds exactly if all of them do.
    pub run_all_lem :
        (w : W) (name : String) (job : Job) (others : List (String × Job))
        → AllEnd dry_run config (keys config.jobs) w
        → config.jobs ≡ (name, job) ∷ others
        → run_all steps dry_run config w ≡ (
          (if all_succeed dry_run config (keys config.jobs) w
              then ok tt
              else err (Error.other "job(s) failed")),
          last_world dry_run config (keys config.jobs) w,
        )
    unfolding run_all
    run_all_lem w name job others total e =
        let names = keys config.jobs in
        let ran = run_jobs_lem names (0, 0) w total in
        let some_job : nat_beq (length names) 0 ≡ false = rw e (ground arith) in
        rw (some_job, ran.is, ran.failed) (by_outcome (all_succeed dry_run config names w) _)
