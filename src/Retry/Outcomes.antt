-- ===== src/Retry/Outcomes.antt =====
-- What `retry_with_backoff` returns, how often it calls and sleeps, and how long a backoff is.
use ghostsnap.Prelude.{
  ℕ, zero, suc, ◌+◌, ◌-◌, ◌/◌, ◌^◌, ◌≤◌, ◌<◌, Bool, true, false, Option, none, some, List, [], ◌∷◌,
  ◌++◌, ltb, ◌≡◌, refl, ap, ◌∙◌, sym, ◌⊎◌, inl, inr, arith, Bool-cases, append_nil,
}
use mathlib.Core.List.{append_assoc}
use mathlib.Core.Path.{subst}
use ghostsnap.Retry.{
  Floats, RetryConfig, base_backoff, backoff_duration, Answer, done, failed, returned, attempts,
  retry_with_backoff,
}

-- A backoff is at most the maximum and a quarter, if the maximum is a float exactly and the random
-- number lies in its range.
pub backoff_duration_le :
    {F : Type 0} (floats : Floats F) (random : ℕ → ℕ) (c : RetryConfig F) (attempt : ℕ)
    → c.max_backoff ≤ 2 ^ 53
    → ((limit : ℕ) → random limit ≤ limit)
    → backoff_duration floats random c attempt ≤ c.max_backoff + c.max_backoff / 4
unfolding backoff_duration
backoff_duration_le floats random c attempt exact range =
    let d = base_backoff floats c attempt in
    let base : d ≤ c.max_backoff =
      unfold base_backoff in floats.to_u64-least _ c.max_backoff exact in
    ground (arith, range (d / 4))

-- lo, lo + 1, ..., n of them
abbrev pub range_from : ℕ → ℕ → List ℕ
range_from lo zero = []
range_from lo (suc n) = lo ∷ range_from (lo + 1) n

range_from_snoc : (lo n : ℕ) → range_from lo (suc n) ≡ range_from lo n ++ (lo + n) ∷ []
range_from_snoc lo zero = ap (λ t. t ∷ []) (omega arith)
range_from_snoc lo (suc n) =
    ap (λ t. lo ∷ t)
      (range_from_snoc (lo + 1) n ∙ ap (λ t. range_from (lo + 1) n ++ t ∷ []) (omega arith))

-- n rounds more than `left`
abbrev more : ℕ → ℕ → ℕ
more zero left = left
more (suc n) left = suc (more n left)

more-eq-add : (n left : ℕ) → more n left ≡ n + left
more-eq-add zero left = omega arith
more-eq-add (suc n) left = omega (arith, more-eq-add n left)

module _ {T E : Type 0} (retryable : E → Bool) (operation : ℕ → Answer T E) (max_attempts : ℕ) where
  -- The attempts from `lo` on, `n` of them, all fail with a retryable error.
  abbrev pub AllRetry : ℕ → ℕ → Type 0
  AllRetry lo zero = Unit
  AllRetry lo (suc n) =
      ((e : E) × (operation lo ≡ failed e) × (retryable e ≡ true)) × AllRetry (lo + 1) n

  -- An answer after which the loop does not go on.
  abbrev pub IsDecisive : Answer T E → Type 0
  IsDecisive (done result) = Unit
  IsDecisive (failed e) = retryable e ≡ false

  -- The loop runs through `n` retryable failures, and has slept after each.
  attempts_through :
      (n left attempt : ℕ) (last : Option E) (sleeps : List ℕ)
      → AllRetry attempt n
      → attempt + n < max_attempts
      → (last' : Option E) × (attempts retryable operation max_attempts
            (more n left)
            attempt
            last
            sleeps
          ≡ attempts retryable operation max_attempts left
              (attempt + n)
              last'
              (sleeps ++ range_from attempt n))
  unfolding attempts
  attempts_through zero left attempt last sleeps h lt = (
    last,
    ap (λ a. attempts retryable operation max_attempts left a last sleeps) (omega arith)
        ∙ ap (λ t. attempts retryable operation max_attempts left (attempt + 0) last t)
            (sym (append_nil sleeps)),
  )
  attempts_through (suc n) left attempt last sleeps ((e, is, again), h) lt =
      let slept : ltb attempt (max_attempts - 1) ≡ true = ground arith in
      let (last', rest) =
        attempts_through n left (attempt + 1) (some e) (sleeps ++ attempt ∷ []) h
          (omega (arith, lt)) in
      (
        last',
        rw (is, slept, again)
            (rest
              ∙ ap
                  (λ a.
                    attempts retryable operation max_attempts left a last'
                      ((sleeps ++ attempt ∷ []) ++ range_from (attempt + 1) n))
                  (omega arith)
              ∙ ap (λ t. attempts retryable operation max_attempts left (attempt + suc n) last' t)
                  (append_assoc sleeps (attempt ∷ []) (range_from (attempt + 1) n))),
      )

  decided_by :
      (answer : Answer T E) (left k : ℕ) (last : Option E) (slept : List ℕ)
      → operation k ≡ answer
      → IsDecisive answer
      → attempts retryable operation max_attempts (suc left) k last slept
        ≡ record { final = returned answer; calls = k + 1; sleeps = slept }
  unfolding attempts
  decided_by (done result) left k last slept is decisive = rw (attempts, is) refl
  decided_by (failed e) left k last slept is decisive = ground (arith, is, decisive)

  decided :
      (left a k : ℕ) (last : Option E) (slept : List ℕ)
      → a ≡ k
      → IsDecisive (operation k)
      → attempts retryable operation max_attempts (suc left) a last slept
        ≡ record { final = returned (operation k); calls = k + 1; sleeps = slept }
  decided left a k last slept e decisive =
      rw e (decided_by (operation k) left k last slept refl decisive)

  -- After k retryable failures, with k less than the maximum, an answer that is a success or an error
  -- that is not to be retried is returned: the operation has been called k + 1 times, with a sleep after
  -- each failure.
  pub retry_with_backoff_decided :
      (k : ℕ)
      → k < max_attempts
      → AllRetry 0 k
      → IsDecisive (operation k)
      → retry_with_backoff retryable operation max_attempts
        ≡ record { final = returned (operation k); calls = k + 1; sleeps = range_from 0 k }
  unfolding retry_with_backoff
  retry_with_backoff_decided k lt h decisive =
      let rest = max_attempts - k - 1 in
      let (last, run) = attempts_through k (suc rest) 0 none [] h (omega (arith, lt)) in
      let rounds : max_attempts ≡ more k (suc rest) = omega (arith, lt, more-eq-add k (suc rest)) in
      ap (λ r. attempts retryable operation max_attempts r 0 none []) rounds
      ∙ run
      ∙ decided rest (0 + k) k last (range_from 0 k) (omega arith) decisive

  exhausted :
      (a k : ℕ) (last : Option E) (slept : List ℕ) (e : E)
      → a ≡ k
      → k + 1 ≡ max_attempts
      → operation k ≡ failed e
      → retryable e ≡ true
      → attempts retryable operation max_attempts 1 a last slept
        ≡ record { final = returned (operation k); calls = max_attempts; sleeps = slept }
  unfolding attempts
  exhausted a k last slept e at all is again =
      let over : ltb k (max_attempts - 1) ≡ false = ground (arith, all) in
      ground (arith, at, is, again, over, all)

  -- If all k + 1 attempts that are allowed fail with a retryable error, the last error is returned: the
  -- operation has been called k + 1 times, with a sleep after each failure but the last.
  pub retry_with_backoff_exhausted :
      (k : ℕ)
      → k + 1 ≡ max_attempts
      → AllRetry 0 k
      → (e : E) → operation k ≡ failed e
      → retryable e ≡ true
      → retry_with_backoff retryable operation max_attempts
        ≡ record { final = returned (operation k); calls = max_attempts; sleeps = range_from 0 k }
  unfolding retry_with_backoff
  retry_with_backoff_exhausted k all h e is again =
      let (last, run) = attempts_through k 1 0 none [] h (omega (arith, all)) in
      let rounds : max_attempts ≡ more k 1 = omega (arith, all, more-eq-add k 1) in
      ap (λ r. attempts retryable operation max_attempts r 0 none []) rounds
      ∙ run
      ∙ exhausted (0 + k) k last (range_from 0 k) e (omega arith) all is again

  answer_cases :
      (answer : Answer T E)
      → IsDecisive answer ⊎ ((e : E) × (answer ≡ failed e) × (retryable e ≡ true))
  answer_cases (done result) = inl tt
  answer_cases (failed e) = elim (Bool-cases (retryable e)) [
    | inl again ↦ inr (e, refl, again)
    | inr no_more ↦ inl no_more
  ]

  -- Among n attempts either all fail with a retryable error, or there is a first that is decisive.
  all_or_first :
      (n lo : ℕ)
      → AllRetry lo n ⊎ ((k : ℕ) × (k < n) × AllRetry lo k × IsDecisive (operation (lo + k)))
  all_or_first zero lo = inl tt
  all_or_first (suc n) lo = elim (answer_cases (operation lo)) [
    | inl decisive ↦
        inr (0, omega arith, tt, subst (λ a. IsDecisive (operation a)) (omega arith) decisive)
    | inr failure ↦ elim (all_or_first n (lo + 1)) [
      | inl h ↦ inl (failure, h)
      | inr (k, lt, h, decisive) ↦ inr (
        suc k,
        omega (arith, lt),
        (failure, h),
        subst (λ a. IsDecisive (operation a)) (omega arith) decisive,
      )
    ]
  ]

  -- Whatever the operation answers, a run with at least one attempt allowed returns the answer of its
  -- attempt number k, where the k attempts before failed with a retryable error and a sleep followed
  -- each, and the answer is a success, or an error not to be retried, or that of the last attempt
  -- allowed. There is no panic, and the operation is called k + 1 times.
  pub retry_with_backoff_lem :
      0 < max_attempts
      → (k : ℕ) × (k < max_attempts)
        × AllRetry 0 k
        × (IsDecisive (operation k) ⊎ (k + 1 ≡ max_attempts))
        × (retry_with_backoff retryable operation max_attempts
            ≡ record { final = returned (operation k); calls = k + 1; sleeps = range_from 0 k })
  retry_with_backoff_lem some_attempt = elim (all_or_first (max_attempts - 1) 0) [
    | inr (k, lt, h, at) ↦
        let decisive : IsDecisive (operation k) =
          subst (λ a. IsDecisive (operation a)) (omega arith) at in
        let below : k < max_attempts = omega (arith, lt) in
        (k, below, h, inl decisive, retry_with_backoff_decided k below h decisive)
    | inl h ↦ elim (answer_cases (operation (max_attempts - 1))) [
      | inl decisive ↦
          let below : max_attempts - 1 < max_attempts = omega arith in
          (
            max_attempts - 1,
            below,
            h,
            inl decisive,
            retry_with_backoff_decided (max_attempts - 1) below h decisive,
          )
      | inr (e, is, again) ↦
          let all : (max_attempts - 1) + 1 ≡ max_attempts = omega arith in
          (
            max_attempts - 1,
            omega arith,
            h,
            inr all,
            rw all (retry_with_backoff_exhausted (max_attempts - 1) all h e is again),
          )
    ]
  ]
