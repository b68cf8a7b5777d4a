-- ===== src/Worker/Jobs/Operation/Outcomes.antt =====
-- How the processing of a job assignment ends.
use mcma_libraries.Prelude.{
  ◌≡◌, refl, true, false, String, Option, none, some, List, Result, ok, err, ◌==◌, inl, inr,
  Bool-cases,
}
use mcma_libraries.Worker.Jobs.{JobStatus, Job, JobProfile, Environment}
use mcma_libraries.Worker.Jobs.Helper.{Helper, Action, initialize, validate_job}
use mcma_libraries.Worker.Jobs.Operation.{
  ProcessJobProfile, wrong_type_message, unsupported_message, find_profile, fail_job_with_message,
  check_job, check_profile, run_profile, try_job, handle, process,
}

module _ {V S : Type 0} (env : Environment V S) (id : String) (job_type : String)
    (initial_status : JobStatus) (profiles : List (ProcessJobProfile V S)) where
  -- The assignment has got its initial status, and the job and its profile have been read.
  pub record IsReady (h h₁ : Helper V S) (job : Job V) (profile : JobProfile) : Type 0 where
    pub initialized : initialize env id (some initial_status) h ≡ (ok tt, h₁)
    pub job_read : h₁.job ≡ some job
    pub type_fits : (job.job_type == job_type) ≡ true
    pub profile_read : h₁.profile ≡ some profile

  -- Why a job fails with a message, and in which state.
  pub data Failure (h : Helper V S) (message : String) (h₁ : Helper V S) : Type 0 where
    not_initialized :
        initialize env id (some initial_status) h ≡ (err message, h₁) → Failure h message h₁
    wrong_type :
        (job : Job V)
        → initialize env id (some initial_status) h ≡ (ok tt, h₁)
        → h₁.job ≡ some job
        → (job.job_type == job_type) ≡ false
        → message ≡ wrong_type_message job.job_type job_type
        → Failure h message h₁
    no_job :
        initialize env id (some initial_status) h ≡ (ok tt, h₁)
        → h₁.job ≡ none
        → Failure h message h₁
    no_profile :
        initialize env id (some initial_status) h ≡ (ok tt, h₁)
        → h₁.profile ≡ none
        → Failure h message h₁
    unsupported :
        (job : Job V) (profile : JobProfile)
        → IsReady h h₁ job profile
        → find_profile profile.name profiles ≡ none
        → message ≡ unsupported_message profile.name
        → Failure h message h₁
    invalid :
        (job : Job V) (profile : JobProfile)
        → IsReady h h₁ job profile
        → validate_job profile job ≡ err message
        → Failure h message h₁
    handler_threw :
        (h₀ : Helper V S) (job : Job V) (profile : JobProfile) (matched : ProcessJobProfile V S)
        → IsReady h h₀ job profile
        → find_profile profile.name profiles ≡ some matched
        → validate_job profile job ≡ ok tt
        → matched.execute h₀ ≡ (err message, h₁)
        → Failure h message h₁

  pub data Outcome (h h' : Helper V S) : Type 0 where
    completed :
        (h₁ : Helper V S) (job : Job V) (profile : JobProfile) (matched : ProcessJobProfile V S)
        → IsReady h h₁ job profile
        → find_profile profile.name profiles ≡ some matched
        → validate_job profile job ≡ ok tt
        → matched.execute h₁ ≡ (ok tt, h')
        → Outcome h h'
    failed :
        (message : String) (h₁ : Helper V S)
        → Failure h message h₁
        → h' ≡ (fail_job_with_message env id job_type initial_status profiles message h₁).1
        → Outcome h h'

  abbrev failing : String → Action V S (Unit {0})
  failing = fail_job_with_message env id job_type initial_status profiles

  abbrev handled : Result (Unit {0}) × Helper V S → Result (Unit {0}) × Helper V S
  handled out = handle env id job_type initial_status profiles out.0 out.1

  handled-executed :
      (h h₁ : Helper V S) (job : Job V) (profile : JobProfile) (matched : ProcessJobProfile V S)
      → IsReady h h₁ job profile
      → find_profile profile.name profiles ≡ some matched
      → validate_job profile job ≡ ok tt
      → (out : Result (Unit {0}) × Helper V S) → matched.execute h₁ ≡ out
      → ((handled out).0 ≡ ok tt) × Outcome h (handled out).1
  unfolding handle fail_job_with_message
  handled-executed h h₁ job profile matched ready found valid (ok x, h') e =
      (refl, completed h₁ job profile matched ready found valid e)
  handled-executed h h₁ job profile matched ready found valid (err m, h') e =
      (refl, failed m h' (handler_threw h₁ job profile matched ready found valid e) refl)

  handled-run_profile :
      (h h₁ : Helper V S) (job : Job V) (profile : JobProfile)
      (found : Option (ProcessJobProfile V S)) (valid : Result (Unit {0}))
      → IsReady h h₁ job profile
      → find_profile profile.name profiles ≡ found
      → validate_job profile job ≡ valid
      → (let out = run_profile env id job_type initial_status profiles profile job found h₁ in
          ((handled out).0 ≡ ok tt) × Outcome h (handled out).1)
  unfolding run_profile handle fail_job_with_message
  handled-run_profile h h₁ job profile none valid ready e v =
      (refl, failed _ h₁ (unsupported job profile ready e refl) refl)
  handled-run_profile h h₁ job profile (some matched) (err m) ready e v =
      rw v (refl, failed m h₁ (invalid job profile ready v) refl)
  handled-run_profile h h₁ job profile (some matched) (ok x) ready e v =
      rw v (handled-executed h h₁ job profile matched ready e v (matched.execute h₁) refl)

  handled-check_profile :
      (h h₁ : Helper V S) (job : Job V) (found : Option JobProfile)
      → initialize env id (some initial_status) h ≡ (ok tt, h₁)
      → h₁.job ≡ some job
      → (job.job_type == job_type) ≡ true
      → h₁.profile ≡ found
      → (let out = check_profile env id job_type initial_status profiles job found h₁ in
          ((handled out).0 ≡ ok tt) × Outcome h (handled out).1)
  unfolding check_profile handle fail_job_with_message
  handled-check_profile h h₁ job none i j t e = (refl, failed _ h₁ (no_profile i e) refl)
  handled-check_profile h h₁ job (some profile) i j t e =
      handled-run_profile h h₁ job profile (find_profile profile.name profiles)
        (validate_job profile job)
        (record { initialized = i; job_read = j; type_fits = t; profile_read = e }) refl refl

  handled-check_job :
      (h h₁ : Helper V S) (found : Option (Job V))
      → initialize env id (some initial_status) h ≡ (ok tt, h₁)
      → h₁.job ≡ found
      → (let out = check_job env id job_type initial_status profiles found h₁ in
          ((handled out).0 ≡ ok tt) × Outcome h (handled out).1)
  unfolding check_job handle fail_job_with_message
  handled-check_job h h₁ none i j = (refl, failed _ h₁ (no_job i j) refl)
  handled-check_job h h₁ (some job) i j = elim (Bool-cases (job.job_type == job_type)) [
    | inl fits ↦ rw (fits, check_job) (handled-check_profile h h₁ job h₁.profile i j fits refl)
    | inr other ↦ rw (other, check_job) (refl, failed _ h₁ (wrong_type job i j other refl) refl)
  ]

  handled-try_job :
      (h : Helper V S) (out : Result (Unit {0}) × Helper V S)
      → initialize env id (some initial_status) h ≡ out
      → ((process env id job_type initial_status profiles h).0 ≡ ok tt)
        × Outcome h (process env id job_type initial_status profiles h).1
  unfolding process try_job
  handled-try_job h (err m, h₁) e =
      rw e (unfold fail_job_with_message in (refl, failed m h₁ (not_initialized e) refl))
  handled-try_job h (ok x, h₁) e = rw e (handled-check_job h h₁ h₁.job e refl)

-- The processing of a job assignment never throws, and ends in one of two ways. Either the
-- assignment got its initial status, the job has the type of the operation, a handler is registered
-- for its profile, no input parameter is missing, and the handler returned with what is the final
-- state; or there is a reason for failure, which was reported with its message by `fail` from the
-- state that the failure left.
pub process-Outcome :
    {V S : Type 0} (env : Environment V S) (id : String) (job_type : String)
    (initial_status : JobStatus) (profiles : List (ProcessJobProfile V S)) (h : Helper V S)
    → ((process env id job_type initial_status profiles h).0 ≡ ok tt)
      × Outcome env id job_type initial_status profiles h
          (process env id job_type initial_status profiles h).1
process-Outcome env id job_type initial_status profiles h =
    handled-try_job env id job_type initial_status profiles h _ refl
