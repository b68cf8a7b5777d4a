-- ===== src/Client/Http/Attempts.antt =====
-- How the attempts of a request end.
use mcma_libraries.Prelude.{
  ℕ, zero, suc, ◌<◌, ◌≡◌, refl, sym, subst, ap, true, false, Option, none, some, ◌⊎◌, inl, inr,
  Bool-cases, ltb, arith,
}
use mcma_libraries.Client.Http.{
  max_attempts_of, HttpRequestConfig, Failure, Answer, answered, failing, Network, Attempt,
  is_retried, failed_request, try_once, pause, after_attempt, run_attempts, first_attempt, request,
}

one_or_more : (m : Option ℕ) → 0 < max_attempts_of m
unfolding max_attempts_of
one_or_more none = omega arith
one_or_more (some n) = elim (Bool-cases (ltb n 1)) [
  | inl small ↦ rw small (omega arith)
  | inr enough ↦ rw enough (ground arith)
]

positive : (n : ℕ) → 0 < n → (k : ℕ) × (n ≡ suc k)
positive zero less = ground arith
positive (suc k) less = (k, refl)

at_least_one : (m : Option ℕ) → (n : ℕ) × (max_attempts_of m ≡ suc n)
at_least_one m = positive (max_attempts_of m) (one_or_more m)

module _ {D R S : Type 0} (network : Network D R S) (retry_interval : Option ℕ) where
  -- `k` attempts in a row that failed with an error to retry, each with the pause that follows it.
  pub data Retried : Attempt D S → ℕ → Attempt D S → Type 0 where
    first : (a : Attempt D S) → Retried a 0 a
    again :
        (a a₁ b : Attempt D S) (failure : Failure) (k : ℕ)
        → try_once network retry_interval a ≡ (failing failure, a₁)
        → is_retried failure.status ≡ true
        → Retried (pause network retry_interval a₁) k b
        → Retried a (suc k) b

  -- How the attempts end of which there are at most `max`.
  pub data Ended (max : ℕ) (a : Attempt D S) (out : Answer R × Attempt D S) : Type 0 where
    succeeded :
        (k : ℕ) (b b' : Attempt D S) (response : R)
        → Retried a k b
        → k < max
        → try_once network retry_interval b ≡ (answered response, b')
        → out ≡ (answered response, b')
        → Ended max a out
    gave_up :
        (k : ℕ) (b b' : Attempt D S) (failure : Failure)
        → Retried a k b
        → k < max
        → try_once network retry_interval b ≡ (failing failure, b')
        → (is_retried failure.status ≡ false) ⊎ (suc k ≡ max)
        → out ≡ (failing (failed_request b'.config), b')
        → Ended max a out

  later-Ended :
      (max : ℕ) (a a₁ : Attempt D S) (failure : Failure) (out : Answer R × Attempt D S)
      → try_once network retry_interval a ≡ (failing failure, a₁)
      → is_retried failure.status ≡ true
      → Ended max (pause network retry_interval a₁) out
      → Ended (suc max) a out
  later-Ended max a a₁ failure out e retried (succeeded k b b' response ks less t o) =
      succeeded (suc k) b b' response (again a a₁ b failure k e retried ks) (omega arith) t o
  later-Ended max a a₁ failure out e retried (gave_up k b b' f ks less t (inl final) o) =
      gave_up (suc k) b b' f (again a a₁ b failure k e retried ks) (omega arith) t (inl final) o
  later-Ended max a a₁ failure out e retried (gave_up k b b' f ks less t (inr last) o) =
      gave_up (suc k) b b' f (again a a₁ b failure k e retried ks) (omega arith) t
        (inr (ap suc last)) o

  after_attempt-Ended :
      (left : ℕ) (a : Attempt D S) (out later : Answer R × Attempt D S)
      → try_once network retry_interval a ≡ out
      → ((n : ℕ) → left ≡ suc n → Ended left (pause network retry_interval out.1) later)
      → Ended (suc left) a (after_attempt network retry_interval left out later)
  unfolding after_attempt
  after_attempt-Ended left a (answered response, a₁) later e rest =
      succeeded 0 a a₁ response (first a) (omega arith) e refl
  after_attempt-Ended zero a (failing failure, a₁) later e rest =
      gave_up 0 a a₁ failure (first a) (omega arith) e (inr refl) refl
  after_attempt-Ended (suc n) a (failing failure, a₁) later e rest =
      elim (Bool-cases (is_retried failure.status)) [
        | inl retried ↦ rw retried (later-Ended (suc n) a a₁ failure later e retried (rest n refl))
        | inr final ↦ rw final (gave_up 0 a a₁ failure (first a) (omega arith) e (inl final) refl)
      ]

  run_attempts-Ended :
      (left : ℕ) (a : Attempt D S)
      → Ended (suc left) a (run_attempts network retry_interval (suc left) a)
  unfolding run_attempts
  run_attempts-Ended zero a = after_attempt-Ended zero a _ _ refl (λ n e. ground arith)
  run_attempts-Ended (suc left) a =
      after_attempt-Ended (suc left) a _ _ refl (λ n e. run_attempts-Ended left _)

  -- A request makes at most as many attempts as are configured, three if that is no number or below
  -- one, and never falls through the loop. It answers with the response of the first attempt that
  -- succeeds, or throws after the first error that is neither 404 nor 500 or above, or after the
  -- last attempt. Every attempt before that failed with an error to retry and was followed by a
  -- pause.
  pub request-Ended :
      (max_attempts : Option ℕ) (config : HttpRequestConfig D) (s : S)
      → Ended
          (max_attempts_of max_attempts)
          (first_attempt network retry_interval config s)
          (request network retry_interval max_attempts config s)
  unfolding request
  request-Ended max_attempts config s =
      let (n, e) = at_least_one max_attempts in
      let a = first_attempt network retry_interval config s in
      subst (λ m. Ended m a (run_attempts network retry_interval m a)) (sym e)
        (run_attempts-Ended n a)
