-- ===== src/Tests/RetryTests.antt =====
-- The theorems on retries at concrete inputs.
use ghostsnap.Prelude.{
  ℕ, zero, suc, ◌+◌, ◌*◌, ◌/◌, ◌^◌, ◌≤◌, ◌<◌, ◌≡◌, ◌⊎◌, Bool, true, ltb, if◌then◌else◌, arith,
}
use ghostsnap.Retry.{
  Floats, RetryConfig, backoff_duration, Answer, done, failed, returned, retry_with_backoff,
}
use ghostsnap.Retry.Outcomes.{
  AllRetry, IsDecisive, range_from, retry_with_backoff_lem, backoff_duration_le,
}

-- Exact numbers in the place of floats.
abbrev exact_floats : Floats ℕ
exact_floats = record {
  from_u64 = λ n. n;
  times_powi = λ x m n. x * m ^ n;
  least = λ x y. if ltb x y then x else y;
  to_u64 = λ x. x;
  to_u64-least = λ x n small. ground arith;
}

-- 100 ms at first, 30 s at most, doubled, with jitter.
abbrev default_config : RetryConfig ℕ
default_config = record {
  max_attempts = 5;
  initial_backoff = 100;
  max_backoff = 30000;
  backoff_multiplier = 2;
  jitter = true;
}

backoff_duration_le_example :
    backoff_duration exact_floats (λ limit. limit) default_config 10
    ≤ default_config.max_backoff + default_config.max_backoff / 4
backoff_duration_le_example =
    backoff_duration_le exact_floats (λ limit. limit) default_config 10 (omega arith)
      (λ limit. omega arith)

-- Two failures and a success.
abbrev operation : ℕ → Answer ℕ Bool
operation zero = failed true
operation (suc zero) = failed true
operation (suc (suc n)) = done n

abbrev retryable : Bool → Bool
retryable e = e

retry_with_backoff_lem_example :
    (k : ℕ) × (k < 5)
    × AllRetry retryable operation 5 0 k
    × (IsDecisive retryable operation 5 (operation k) ⊎ (k + 1 ≡ 5))
    × (retry_with_backoff retryable operation 5
        ≡ record { final = returned (operation k); calls = k + 1; sleeps = range_from 0 k })
retry_with_backoff_lem_example = retry_with_backoff_lem retryable operation 5 (omega arith)
