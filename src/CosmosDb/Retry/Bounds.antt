-- ===== src/CosmosDb/Retry/Bounds.antt =====
-- How often and how long `withRetry` waits.
use mcma_libraries.Prelude.{
  ℕ, zero, suc, ◌≤◌, ◌≡◌, refl, Bool, true, false, Option, none, some, Result, ◌⊎◌,
}
use mcma_libraries.CosmosDb.Retry.{
  Retry, Failure, Called, thrown, promised, is_retried, after_call, retry_loop, with_retry,
}

abbrev pub IsWithin : Option ℕ → ℕ → Type 0
IsWithin none n = Unit
IsWithin (some limit) n = n ≤ limit

module _ {A S : Type 0} (sleep : Bool → ℕ → S → S) (retry : Retry) (func : S → Called A × S) where
  -- Calls in a row that threw an exception to retry, each followed by a wait within the limit.
  pub data Waited : S → ℕ → S → Type 0 where
    at_once : (s : S) → Waited s 0 s
    again :
        (s s₁ t : S) (failure : Failure) (seconds k : ℕ)
        → func s ≡ (thrown failure, s₁)
        → is_retried failure ≡ true
        → IsWithin retry.max_delay_seconds seconds
        → Waited (sleep retry.jitter seconds s₁) k t
        → Waited s (suc k) t

  -- The last call, after at most `max` that threw.
  pub data Ended (max : ℕ) (s : S) (out : Called A × S) : Type 0 where
    settled :
        (k : ℕ) (t t' : S) (r : Result A)
        → Waited s k t
        → k ≤ max
        → func t ≡ (promised r, t')
        → out ≡ (promised r, t')
        → Ended max s out
    failed :
        (k : ℕ) (t t' : S) (failure : Failure)
        → Waited s k t
        → k ≤ max
        → func t ≡ (thrown failure, t')
        → (is_retried failure ≡ false) ⊎ (k ≡ max)
        → out ≡ (thrown failure, t')
        → Ended max s out

  retry_loop-promised :
      (left before : ℕ) (r : Result A) (s s' : S)
      → func s ≡ (promised r, s')
      → retry_loop sleep retry func left before s ≡ (promised r, s')
  unfolding retry_loop after_call
  retry_loop-promised zero before r s s' e = rw e refl
  retry_loop-promised (suc left) before r s s' e = rw e refl

  -- A function that gives a promise is called once.
  pub with_retry-promised :
      (r : Result A) (s s' : S)
      → func s ≡ (promised r, s')
      → with_retry sleep retry func s ≡ (promised r, s')
  unfolding with_retry
  with_retry-promised = retry_loop-promised retry.max_attempts 0
