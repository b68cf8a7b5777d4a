-- ===== src/Worker/Jobs/Helper.antt =====
-- base/worker/lib/jobs/process-job-assignment-helper.ts
pub mod Laws
use mcma_libraries.Prelude.{
  ℕ, ◌*◌, Bool, true, false, ◌&&◌, not, String, Option, none, some, List, [], ◌∷◌, Result, ok, err,
  ◌==◌, if◌then◌else◌, any_equal, follow,
}
use Prim.Native.String.{◌++◌}
use mcma_libraries.Worker.Jobs.{
  JobStatus, completed, failed, canceled, ProblemDetail, Bag, JobAssignment, Job, JobProfile,
  new_job_parameter_bag, keys, Environment,
}

-- The fields of the helper, and all that is outside.
pub record Helper (V S : Type 0) : Type 0 where
  pub job_assignment : Option (JobAssignment V)
  pub job : Option (Job V)
  pub profile : Option JobProfile
  pub world : S

abbrev pub Action : Type 0 → Type 0 → Type 0 → Type 0
Action V S A = Helper V S → Result A × Helper V S

module _ {V S A B : Type 0} where
  infixl 5 ◌>>=◌ ◌>>◌
  abbrev pub ◌>>=◌ : Action V S A → (A → Action V S B) → Action V S B
  ◌>>=◌ m next h = let (answer, h') = m h in follow answer next h'

  abbrev pub ◌>>◌ : Action V S A → Action V S B → Action V S B
  m >> next = m >>= λ _. next

module _ {V S A : Type 0} where
  abbrev pub pure : A → Action V S A
  pure a h = (ok a, h)

  abbrev pub throw : String → Action V S A
  throw e h = (err e, h)

  -- A call of something outside.
  abbrev pub outside : (S → Result A × S) → Action V S A
  outside call h = let (answer, s') = call h.world in (answer, record h { world = s' })

abbrev pub change : {V S : Type 0} → (Helper V S → Helper V S) → Action V S (Unit {0})
change f h = (ok tt, f h)

-- An object that is `null` where the source reads a field of it.
abbrev pub required : {V S A : Type 0} → Option A → Action V S A
required none = throw "Cannot read properties of null"
required (some a) = pure a

module _ {V S : Type 0} (env : Environment V S) (id : String) where
  pub not_found : String
  not_found = "JobAssignment with id '" ++ id ++ "' not found."

  -- The loop of `getJobAssignment` over the timeouts, with what the last read found.
  retry : List ℕ → Option (JobAssignment V) → Action V S (Option (JobAssignment V))
  retry timeouts (some found) = pure (some found)
  retry [] none = pure none
  retry (timeout ∷ timeouts) none = do
    change (λ h. record h { world = env.sleep (timeout * 1000) h.world })
    again ← outside (env.table_get id)
    retry timeouts again

  unfoldable pub get_job_assignment : Action V S (Option (JobAssignment V))
  unfolding retry
  get_job_assignment = do found ← outside (env.table_get id); retry (5 ∷ 10 ∷ 15 ∷ []) found

  -- `this._jobAssignment` with an endpoint is sent to it.
  notify_at : Option String → JobAssignment V → Action V S (Unit {0})
  notify_at none assignment = pure tt
  notify_at (some _) assignment = outside (env.send_notification assignment)

  notify : Option (JobAssignment V) → Action V S (Unit {0})
  notify none = throw "Cannot read properties of undefined"
  notify (some assignment) = notify_at assignment.notification_endpoint assignment

  unfoldable pub send_notification : Action V S (Unit {0})
  unfolding notify notify_at
  send_notification h = notify h.job_assignment h

  store_assignment : JobAssignment V → Bool → Action V S (JobAssignment V)
  store_assignment assignment notifying = do
    outside (env.table_put id assignment)
    change (λ h. record h { job_assignment = some assignment })
    elim notifying [ true ↦ send_notification | false ↦ pure tt ]
    pure assignment

  -- The update and the new date are applied to what the table holds.
  change_assignment :
      (JobAssignment V → JobAssignment V)
      → Bool
      → Option (JobAssignment V)
      → Action V S (JobAssignment V)
  change_assignment update notifying none h = throw not_found h
  change_assignment update notifying (some found) h =
      store_assignment (record (update found) { date_modified = env.now h.world }) notifying h

  unfoldable pub update_job_assignment :
      (JobAssignment V → JobAssignment V) → Bool → Action V S (JobAssignment V)
  unfolding change_assignment store_assignment not_found
  update_job_assignment update notifying = do
    found ← get_job_assignment
    change_assignment update notifying found

  abbrev pub output_of : Option (Job V) → Option (Bag V)
  output_of none = none
  output_of (some job) = job.job_output

  unfoldable pub complete : Action V S (JobAssignment V)
  complete h =
      update_job_assignment
        (λ ja. record ja {
          status = some completed;
          progress = some 100;
          job_output = output_of h.job;
        })
        true h

  unfoldable pub fail : ProblemDetail → Action V S (JobAssignment V)
  fail problem h =
      update_job_assignment
        (λ ja. record ja {
          status = some failed;
          error = some problem;
          job_output = output_of h.job;
        })
        true h

  unfoldable pub cancel : Action V S (JobAssignment V)
  cancel h =
      update_job_assignment
        (λ ja. record ja { status = some canceled; job_output = output_of h.job }) true h

  unfoldable pub update_job_assignment_output : Action V S (JobAssignment V)
  update_job_assignment_output h =
      update_job_assignment (λ ja. record ja { job_output = output_of h.job }) true h

  unfoldable pub update_job_assignment_status : JobStatus → Action V S (JobAssignment V)
  update_job_assignment_status status =
      update_job_assignment (λ ja. record ja { status = some status }) true

  found_or_throw : Option (JobAssignment V) → Action V S (JobAssignment V)
  found_or_throw none = throw not_found
  found_or_throw (some found) = pure found

  initial_assignment : Option JobStatus → Action V S (JobAssignment V)
  initial_assignment (some status) = update_job_assignment_status status
  initial_assignment none = do found ← get_job_assignment; found_or_throw found

  -- `initialize`. The bags of the job are made anew from its input and from the output of the
  -- assignment.
  unfoldable pub initialize : Option JobStatus → Action V S (Unit {0})
  unfolding initial_assignment found_or_throw
  initialize initial_status = do
    assignment ← initial_assignment initial_status
    change (λ h. record h { job_assignment = some assignment })
    found_job ← outside (env.get_job assignment.job_id)
    change (λ h. record h { job = found_job })
    job ← required found_job
    profile ← outside (env.get_profile job.job_profile_id)
    change (λ h. record h {
      profile = profile;
      job = some (record job {
        job_input = some (new_job_parameter_bag env.type_value job.job_input);
        job_output = some (new_job_parameter_bag env.type_value assignment.job_output);
      });
    })

-- The input parameters that the job lacks.
unfoldable pub missing : List String → List String → List String
missing keys [] = []
missing keys (p ∷ ps) = let rest = missing keys ps in if any_equal p keys then rest else p ∷ rest

abbrev pub join_names : List String → String
join_names [] = ""
join_names (p ∷ []) = p
join_names (p ∷ q ∷ ps) = p ++ ", " ++ join_names (q ∷ ps)

abbrev pub input_keys : {V : Type 0} → Option (Bag V) → List String
input_keys none = []
input_keys (some bag) = keys bag

abbrev report : List String → Result (Unit {0})
report [] = ok tt
report (p ∷ ps) =
    err ("One or more required input parameters are missing from the job: " ++ join_names (p ∷ ps))

validate : Option (List String) → List String → Result (Unit {0})
validate none found = ok tt
validate (some parameters) found = report (missing found parameters)

-- `validateJob`
unfoldable pub validate_job : {V : Type 0} → JobProfile → Job V → Result (Unit {0})
unfolding missing validate
validate_job profile job = validate profile.input_parameters (input_keys job.job_input)
