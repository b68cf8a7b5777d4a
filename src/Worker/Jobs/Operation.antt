-- ===== src/Worker/Jobs/Operation.antt =====
-- base/worker/lib/jobs/process-job-assignment-operation.ts
pub mod Outcomes
pub mod Reports
use mcma_libraries.Prelude.{
  follow, ℕ, Bool, true, false, String, Option, none, some, List, [], ◌∷◌, Result, ok, err, ◌==◌,
  is_empty, if◌then◌else◌,
}
use Prim.Native.String.{◌++◌}
use mcma_libraries.Worker.Dispatch.{WorkerRequest}
use mcma_libraries.Worker.Jobs.{JobStatus, ProblemDetail, Job, JobProfile, Environment}
use mcma_libraries.Worker.Jobs.Helper.{
  Helper, Action, ◌>>=◌, ◌>>◌, pure, throw, outside, change, required, fail, initialize,
  validate_job,
}

-- base/worker/lib/jobs/process-job-profile.ts
pub record ProcessJobProfile (V S : Type 0) : Type 0 where
  pub name : String
  pub execute : Action V S (Unit {0})

-- The input of a request, with its `jobAssignmentDatabaseId`.
pub record WorkerInput : Type 0 where
  pub job_assignment_database_id : Option String

-- `accepts`
unfoldable pub accepts : WorkerRequest WorkerInput → Bool
accepts request = request.operation_name == "ProcessJobAssignment"

unfoldable pub generic_failure : String → ProblemDetail
generic_failure message = record {
  problem_type = "uri://mcma.ebu.ch/rfc7807/generic-job-failure";
  title = "Generic job failure";
  detail = some message;
}

unfoldable pub wrong_type_message : String → String → String
wrong_type_message found expected =
    "Job has type '" ++ found ++ "', which does not match expected job type '" ++ expected ++ "'."

unfoldable pub unsupported_message : String → String
unsupported_message name = "Job profile '" ++ name ++ "' is not supported."

module _ {V S : Type 0} where
  -- `addProfile`
  unfoldable pub add_profile :
      ProcessJobProfile V S → List (ProcessJobProfile V S) → List (ProcessJobProfile V S)
  add_profile profile profiles = mathlib.Core.List.◌++◌ profiles (profile ∷ [])

  -- `this.profiles.find(p => … name === p.name)`
  unfoldable pub find_profile :
      String → List (ProcessJobProfile V S) → Option (ProcessJobProfile V S)
  find_profile name [] = none
  find_profile name (p ∷ ps) =
      let later = find_profile name ps in if name == p.name then some p else later

module _ {V S : Type 0} (env : Environment V S) (id : String) (job_type : String)
    (initial_status : JobStatus) (profiles : List (ProcessJobProfile V S)) where
  -- `failJobWithMessage`, and `failJobOnException` with the message of the exception. What `fail`
  -- throws is caught.
  unfoldable pub fail_job_with_message : String → Action V S (Unit {0})
  fail_job_with_message message h =
      let (_, h') = fail env id (generic_failure message) h in (ok tt, h')

  run_profile : JobProfile → Job V → Option (ProcessJobProfile V S) → Action V S (Unit {0})
  run_profile profile job none h = fail_job_with_message (unsupported_message profile.name) h
  run_profile profile job (some matched) h =
      follow (validate_job profile job) (λ _. matched.execute) h

  check_profile : Job V → Option JobProfile → Action V S (Unit {0})
  check_profile job none = throw "Cannot read properties of null"
  check_profile job (some profile) = run_profile profile job (find_profile profile.name profiles)

  check_job : Option (Job V) → Action V S (Unit {0})
  check_job none h = (err "Cannot read properties of undefined", h)
  check_job (some job) h = elim (job.job_type == job_type) [
    | false ↦ fail_job_with_message (wrong_type_message job.job_type job_type) h
    | true ↦ check_profile job h.profile h
  ]

  -- The body of the `try` of `execute`.
  unfoldable pub try_job : Action V S (Unit {0})
  unfolding check_job check_profile run_profile
  try_job = do initialize env id (some initial_status); λ h. check_job h.job h

  handle : Result (Unit {0}) → Action V S (Unit {0})
  handle (ok _) = pure tt
  handle (err message) = fail_job_with_message message

  unfoldable pub process : Action V S (Unit {0})
  unfolding handle
  process h = let (answer, h') = try_job h in handle answer h'

module _ {V S : Type 0} (connect : S → Result (Environment V S) × S) (job_type : String)
    (initial_status : JobStatus) (profiles : List (ProcessJobProfile V S)) where
  abbrev pub new_helper : S → Helper V S
  new_helper s = record { job_assignment = none; job = none; profile = none; world = s }

  connected : String → Result (Environment V S) × S → Result (Unit {0}) × S
  connected id (err e, s) = (err e, s)
  connected id (ok env, s) =
      let (answer, h) = process env id job_type initial_status profiles (new_helper s) in
      (answer, h.world)

  execute_on : Option String → S → Result (Unit {0}) × S
  execute_on none s = (err "request.input does not specify a jobAssignmentDatabaseId", s)
  execute_on (some id) s = elim (is_empty id) [
    | true ↦ (err "request.input does not specify a jobAssignmentDatabaseId", s)
    | false ↦ connected id (connect s)
  ]

  execute_input : Option WorkerInput → S → Result (Unit {0}) × S
  execute_input none s = (err "request.input is required.", s)
  execute_input (some input) s = execute_on input.job_assignment_database_id s

  -- `execute`; the table and the resource manager come from the providers, which may throw.
  unfoldable pub execute : Option (WorkerRequest WorkerInput) → S → Result (Unit {0}) × S
  unfolding connected execute_on execute_input
  execute none s = (err "request must be provided", s)
  execute (some request) s = execute_input request.input s
