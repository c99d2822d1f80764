-- ===== src/Retry.antt =====
-- backends/src/retry.rs: retrying an operation with exponential backoff. The answers of the operation
-- are a function of the attempt; the loop also returns how often it was called and before which
-- attempts it slept. Floating point and the random jitter are arguments.
pub mod Outcomes
use text.Mathlib.Text.{find?}
use ghostsnap.Prelude.{
  ℕ, zero, suc, ◌+◌, ◌-◌, ◌*◌, ◌/◌, ◌^◌, ◌≤◌, String, Bool, true, false, ◌||◌, Option, none, some,
  List, [], ◌∷◌, ◌++◌, ltb, if◌then◌else◌, is_some, ◌≡◌,
}
use ghostsnap.Errors.{Error}

-- f64, as far as the backoff uses it. A float's cast to u64 truncates and saturates.
pub record Floats (F : Type 0) : Type 0 where
  pub from_u64 : ℕ → F
  pub times_powi : F → F → ℕ → F
  pub least : F → F → F
  pub to_u64 : F → ℕ
  -- The lesser of a float and an integer that a float represents exactly is cast to at most that integer.
  pub to_u64-least : (x : F) (n : ℕ) → n ≤ 2 ^ 53 → to_u64 (least x (from_u64 n)) ≤ n

-- Durations are in milliseconds.
pub record RetryConfig (F : Type 0) : Type 0 where
  pub max_attempts : ℕ
  pub initial_backoff : ℕ
  pub max_backoff : ℕ
  pub backoff_multiplier : F
  pub jitter : Bool

module _ {F : Type 0} (floats : Floats F) where
  unfoldable pub base_backoff : RetryConfig F → ℕ → ℕ
  base_backoff c attempt = floats.to_u64 (
      floats.least
        (floats.times_powi (floats.from_u64 c.initial_backoff) c.backoff_multiplier attempt)
        (floats.from_u64 c.max_backoff))

  -- `gen_range(0..=limit)` is the argument `random`, a function into 0 .. limit.
  unfoldable pub backoff_duration : (ℕ → ℕ) → RetryConfig F → ℕ → ℕ
  unfolding base_backoff
  backoff_duration random c attempt =
      let duration_ms = base_backoff c attempt in
      if c.jitter then duration_ms + random (duration_ms / 4) else duration_ms

  -- `RetryConfig::default`
  unfoldable pub default_config : RetryConfig F
  default_config = record {
    max_attempts = 5;
    initial_backoff = 100;
    max_backoff = 30000;
    backoff_multiplier = floats.from_u64 2;
    jitter = true;
  }

  unfoldable pub quick : RetryConfig F
  unfolding default_config
  quick = record default_config { max_attempts = 3; initial_backoff = 50; max_backoff = 5000 }

  unfoldable pub persistent : RetryConfig F
  unfolding default_config
  persistent = record default_config {
    max_attempts = 10;
    initial_backoff = 200;
    max_backoff = 60000;
  }

contains_text : String → String → Bool
contains_text msg part = is_some (find? msg part)

-- `Retryable for ghostsnap_core::Error`
unfoldable pub is_retryable : Error → Bool
unfolding contains_text
is_retryable (Error.io e) = true
is_retryable (Error.backend msg) =
    contains_text msg "timeout"
    || contains_text msg "rate limit"
    || contains_text msg "throttle"
    || contains_text msg "temporarily unavailable"
    || contains_text msg "try again"
    || contains_text msg "503"
    || contains_text msg "429"
is_retryable _ = false

pub data Answer (T E : Type 0) : Type 0 where
  done : T → Answer T E
  failed : E → Answer T E

-- The result of the loop: the answer, or a panic, with the calls made and the attempts after which it
-- slept.
pub data Final (T E : Type 0) : Type 0 where
  returned : Answer T E → Final T E
  panicked : Final T E

pub record Run (T E : Type 0) : Type 0 where
  pub final : Final T E
  pub calls : ℕ
  pub sleeps : List ℕ

module _ {T E : Type 0} (retryable : E → Bool) (operation : ℕ → Answer T E) (max_attempts : ℕ) where
  -- `for attempt in 0..config.max_attempts`, with the rounds that are left.
  unfoldable pub attempts : ℕ → ℕ → Option E → List ℕ → Run T E
  attempts zero attempt none sleeps = record { final = panicked; calls = attempt; sleeps = sleeps }
  attempts zero attempt (some error) sleeps = record {
    final = returned (failed error);
    calls = attempt;
    sleeps = sleeps;
  }
  attempts (suc left) attempt last_error sleeps = elim (operation attempt) [
    | done result ↦ record { final = returned (done result); calls = attempt + 1; sleeps = sleeps }
    | failed error ↦
        let slept = if ltb attempt (max_attempts - 1) then sleeps ++ attempt ∷ [] else sleeps in
        let next = attempts left (attempt + 1) (some error) slept in
        if retryable error
        then next
        else record { final = returned (failed error); calls = attempt + 1; sleeps = sleeps }
  ]

  unfoldable pub retry_with_backoff : Run T E
  unfolding attempts
  retry_with_backoff = attempts max_attempts 0 none []
