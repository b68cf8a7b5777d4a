-- ===== src/CosmosDb/Retry.antt =====
-- azure/cosmos-db/lib/cosmos-db-table.ts: the retry options and `withRetry`. The function that it is
-- given throws or gives a promise, which `return func()` passes on before it is settled. The options
-- are natural numbers; jitter and rounding belong to the sleep, which is a parameter.
pub mod Bounds
use mcma_libraries.Prelude.{
  ℕ, zero, suc, ◌*◌, Bool, true, false, String, Option, none, some, Result, ok, err, ◌==◌, ltb,
  at_least, if◌then◌else◌,
}

-- azure/cosmos-db/lib/cosmos-db-table-provider-options.ts
pub record CosmosDbTableRetryOptions : Type 0 where
  pub max_attempts : Option ℕ
  pub interval_seconds : Option ℕ
  pub backoff_rate : Option ℕ
  pub max_delay_seconds : Option ℕ
  pub jitter : Option Bool

pub record Retry : Type 0 where
  pub max_attempts : ℕ
  pub interval_seconds : ℕ
  pub backoff_rate : ℕ
  pub max_delay_seconds : Option ℕ
  pub jitter : Bool

abbrev or_true : Option Bool → Bool
or_true none = true
or_true (some b) = b

abbrev no_options : CosmosDbTableRetryOptions
no_options = record {
  max_attempts = none;
  interval_seconds = none;
  backoff_rate = none;
  max_delay_seconds = none;
  jitter = none;
}

abbrev given_options : Option CosmosDbTableRetryOptions → CosmosDbTableRetryOptions
given_options none = no_options
given_options (some options) = options

-- The defaults of the constructor.
unfoldable pub retry_of : Option CosmosDbTableRetryOptions → Retry
retry_of options =
    let o = given_options options in
    record {
      max_attempts = at_least 0 2 o.max_attempts;
      interval_seconds = at_least 1 5 o.interval_seconds;
      backoff_rate = at_least 1 2 o.backoff_rate;
      max_delay_seconds = o.max_delay_seconds;
      jitter = or_true o.jitter;
    }

-- An exception with its `code`.
pub record Failure : Type 0 where
  pub code : String
  pub message : String

-- What a call of a function comes to: an exception, or a promise with what it will be settled with.
pub data Called (A : Type 0) : Type 0 where
  thrown : Failure → Called A
  promised : Result A → Called A

abbrev pub power : ℕ → ℕ → ℕ
power base zero = 1
power base (suc n) = base * power base n

abbrev pub at_most : Option ℕ → ℕ → ℕ
at_most none n = n
at_most (some limit) n = if ltb limit n then limit else n

-- The seconds that follow a number of retries before this one.
unfoldable pub timeout_seconds : Retry → ℕ → ℕ
timeout_seconds retry before =
    at_most retry.max_delay_seconds (retry.interval_seconds * power retry.backoff_rate before)

abbrev pub is_retried : Failure → Bool
is_retried failure = failure.code == "TooManyRequests"

module _ {A S : Type 0} (sleep : Bool → ℕ → S → S) (retry : Retry) (func : S → Called A × S) where
  -- The end of a call after which `left` retries are left, with what they would come to.
  after_call : ℕ → Called A × S → Called A × S → Called A × S
  after_call left (promised r, s) later = (promised r, s)
  after_call zero (thrown failure, s) later = (thrown failure, s)
  after_call (suc left) (thrown failure, s) later =
      if is_retried failure then later else (thrown failure, s)

  unfoldable pub pause : ℕ → S → S
  pause before s = sleep retry.jitter (timeout_seconds retry before) s

  -- The loop, by the retries that are left and those there were.
  unfoldable pub retry_loop : ℕ → ℕ → S → Called A × S
  unfolding after_call
  retry_loop zero before s = after_call zero (func s) (func s)
  retry_loop (suc left) before s =
      let out = func s in
      let later = retry_loop left (suc before) (pause before out.1) in
      after_call (suc left) out later

  unfoldable pub with_retry : S → Called A × S
  with_retry s = retry_loop retry.max_attempts 0 s
