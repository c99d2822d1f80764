-- ===== src/Hooks.antt =====
-- cli/src/hooks.rs: the commands that run before and after a job. The processes are tokio's.
use mathlib.Core.Path.{subst}
use ghostsnap.Prelude.{
  ℕ, ap, sym, Bool-cases, inl, inr, ◌≡◌, refl, String, Bool, true, false, Option, none, some, arith,
  nat_beq, if◌then◌else◌,
}
use ghostsnap.Errors.{Error, Result, ok, err}
use ghostsnap.Action.{Action, ◌>>=◌, resume-eq-ok}
use ghostsnap.Foreign.{Bytes}

pub record HookConfig : Type 0 where
  pub command : String
  pub timeout : ℕ
  pub shell : String
  pub working_dir : Option String

-- An exit code is its 32-bit pattern.
pub record HookResult : Type 0 where
  pub success : Bool
  pub exit_code : Option ℕ
  pub stdout : String
  pub stderr : String
  pub duration : ℕ
  pub timed_out : Bool

unfoldable pub success : String → String → ℕ → HookResult
success stdout stderr duration = record {
  success = true;
  exit_code = some 0;
  stdout = stdout;
  stderr = stderr;
  duration = duration;
  timed_out = false;
}

unfoldable pub failure : Option ℕ → String → String → ℕ → HookResult
failure exit_code stdout stderr duration = record {
  success = false;
  exit_code = exit_code;
  stdout = stdout;
  stderr = stderr;
  duration = duration;
  timed_out = false;
}

unfoldable pub timeout : String → String → ℕ → HookResult
timeout stdout stderr duration = record {
  success = false;
  exit_code = none;
  stdout = stdout;
  stderr = stderr;
  duration = duration;
  timed_out = true;
}

-- What becomes of the process that a shell is started in: it ends with its status (no code where a signal
-- ended it), it cannot be read or waited for, or the time runs out, upon which its group is killed.
pub data Ending : Type 0 where
  exited : Option ℕ → Bytes → Bytes → Ending
  process_error : Error → Ending
  timed_out : Ending

-- `spawn`, and the wait under `timeout`, with the time that went by.
pub record Processes (W : Type 0) : Type 0 where
  pub spawn : HookConfig → Action W Unit
  pub wait : HookConfig → W → (Ending × ℕ) × W
  pub from_utf8_lossy : Bytes → String

-- `status.success()`
abbrev pub is_success : Option ℕ → Bool
is_success none = false
is_success (some code) = nat_beq code 0

-- What a hook that did not fail to run tells: `success` exactly on exit code 0, a timeout without a code.
pub record IsConsistent (r : HookResult) : Type 0 where
  pub by_code : r.success ≡ is_success r.exit_code
  pub by_timeout : r.timed_out ≡ true → r.exit_code ≡ none

result-eq : (x y : HookResult) → ok x ≡ ok y → x ≡ y
result-eq x y h = cc

by_branch :
    (code : ℕ) (out errors : String) (duration : ℕ)
    → IsConsistent (
        if is_success (some code)
        then success out errors duration
        else failure (some code) out errors duration)
unfolding success failure
by_branch code out errors duration = elim (Bool-cases (nat_beq code 0)) [
  | inl e ↦ rw e (record { by_code = refl; by_timeout = λ t. ground (arith, t) })
  | inr e ↦ rw e (record { by_code = sym e; by_timeout = λ t. ground (arith, t) })
]

module _ {W : Type 0} (processes : Processes W) where
  unfoldable pub hook_result : Ending × ℕ → Result HookResult
  unfolding success failure timeout
  hook_result (exited code stdout stderr, duration) =
      let out = processes.from_utf8_lossy stdout in
      let errors = processes.from_utf8_lossy stderr in
      ok (if is_success code then success out errors duration else failure code out errors duration)
  hook_result (process_error e, duration) = err e
  hook_result (timed_out, duration) = ok (timeout "" "" duration)

  unfoldable pub execute_hook : HookConfig → Action W HookResult
  unfolding hook_result
  execute_hook config = do
    spawned ← processes.spawn config
    (λ w. let ended = processes.wait config w in (hook_result ended.0, ended.1))

  hook_result-IsConsistent :
      (ended : Ending × ℕ) (r : HookResult) → hook_result ended ≡ ok r → IsConsistent r
  unfolding hook_result
  hook_result-IsConsistent (exited none stdout stderr, duration) r h =
      subst IsConsistent (result-eq _ r h) (record { by_code = refl; by_timeout = λ e. refl })
  hook_result-IsConsistent (exited (some code) stdout stderr, duration) r h =
      subst IsConsistent (result-eq _ r h) (by_branch code _ _ duration)
  hook_result-IsConsistent (process_error e, duration) r h = cc
  hook_result-IsConsistent (timed_out, duration) r h =
      subst IsConsistent (result-eq _ r h) (record { by_code = refl; by_timeout = λ e. refl })

  -- Whatever becomes of the process, if `execute_hook` returns a result then it tells of success exactly
  -- if there is the exit code 0, and of a timeout only without an exit code.
  pub execute_hook-IsConsistent :
      (config : HookConfig) (w after : W) (r : HookResult)
      → execute_hook config w ≡ (ok r, after)
      → IsConsistent r
  unfolding execute_hook
  execute_hook-IsConsistent config w after r h =
      let spawned = processes.spawn config w in
      let (u, is, rest) = resume-eq-ok spawned.0 spawned.1 _ h in
      hook_result-IsConsistent _ r (ap (λ run. run.0) rest)
