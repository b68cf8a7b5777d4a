-- ===== src/Worker/Jobs.antt =====
-- base/worker/lib/jobs: `ProcessJobAssignmentHelper` and `ProcessJobAssignmentOperation`. The
-- document table, the resource manager, the clock and the handlers of the job profiles are
-- parameters. The log and the `logger` are left out.
pub mod Helper
pub mod Operation
use mcma_libraries.Prelude.{
  ℕ, String, Option, none, some, List, [], ◌∷◌, Result, ok, err, ◌==◌, if◌then◌else◌,
}

-- base/core/lib/model/job-status.ts
pub data JobStatus : Type 0 where
  new : JobStatus
  pending : JobStatus
  assigned : JobStatus
  queued : JobStatus
  scheduled : JobStatus
  running : JobStatus
  completed : JobStatus
  failed : JobStatus
  canceled : JobStatus

-- base/core/lib/model/problem-detail.ts
pub record ProblemDetail : Type 0 where
  pub problem_type : String
  pub title : String
  pub detail : Option String

-- The entries of a job parameter bag, over a type of values.
abbrev pub Bag : Type 0 → Type 0
Bag V = List (String × V)

-- base/core/lib/model/job-assignment.ts: the fields that the worker reads or writes.
pub record JobAssignment (V : Type 0) : Type 0 where
  pub job_id : String
  pub status : Option JobStatus
  pub error : Option ProblemDetail
  pub job_output : Option (Bag V)
  pub progress : Option ℕ
  pub date_modified : ℕ
  pub notification_endpoint : Option String

-- base/core/lib/model/jobs/job.ts
pub record Job (V : Type 0) : Type 0 where
  pub job_type : String
  pub job_profile_id : String
  pub job_input : Option (Bag V)
  pub job_output : Option (Bag V)

-- base/core/lib/model/job-profile.ts, with the names of its parameters.
pub record JobProfile : Type 0 where
  pub name : String
  pub input_parameters : Option (List String)

module _ {V : Type 0} where
  abbrev pub without : String → Bag V → Bag V
  without k [] = []
  without k ((j, v) ∷ bag) = let rest = without k bag in if j == k then rest else (j, v) ∷ rest

  abbrev pub entries : Option (Bag V) → Bag V
  entries none = []
  entries (some bag) = bag

  -- `new JobParameterBag(properties)`, where `type_value` is the text "JobParameterBag".
  abbrev pub new_job_parameter_bag : V → Option (Bag V) → Bag V
  new_job_parameter_bag type_value properties =
      ("@type", type_value) ∷ without "@type" (entries properties)

  abbrev pub keys : Bag V → List String
  keys [] = []
  keys ((k, _) ∷ bag) = k ∷ keys bag

-- What the helper uses of the document table, the resource manager and the clock, over the state
-- `S` of all that is outside.
pub record Environment (V S : Type 0) : Type 0 where
  pub table_get : String → S → Result (Option (JobAssignment V)) × S
  pub table_put : String → JobAssignment V → S → Result (Unit {0}) × S
  pub get_job : String → S → Result (Option (Job V)) × S
  pub get_profile : String → S → Result (Option JobProfile) × S
  pub send_notification : JobAssignment V → S → Result (Unit {0}) × S
  pub sleep : ℕ → S → S
  pub now : S → ℕ
  pub type_value : V
