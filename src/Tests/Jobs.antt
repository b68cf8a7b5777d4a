-- ===== src/Tests/Jobs.antt =====
-- The worker, run with a table that holds one job assignment and with notifications that throw.
use mcma_libraries.Prelude.{
  ◌≡◌, refl, true, String, Option, none, some, List, [], ◌∷◌, ok, err, All, any_equal, ◌↔◌,
}
use mcma_libraries.Worker.Dispatch.{WorkerRequest, WorkerOperation, named_filter, do_work}
use mcma_libraries.Worker.Dispatch.Laws.{Work, do_work-Work}
use mcma_libraries.Worker.Jobs.{running, ProblemDetail, JobAssignment, Job, JobProfile, Environment}
use mcma_libraries.Worker.Jobs.Helper.{Helper, send_notification, validate_job, input_keys}
use mcma_libraries.Worker.Jobs.Helper.Laws.{validate_job-ok}
use mcma_libraries.Worker.Jobs.Operation.{ProcessJobProfile, generic_failure, try_job, process}
use mcma_libraries.Worker.Jobs.Operation.Outcomes.{Outcome, process-Outcome}

abbrev Table : Type 0
Table = Option (JobAssignment String)

abbrev job : Job String
job = record {
  job_type = "AmeJob";
  job_profile_id = "profile";
  job_input = some (("file", "a.wav") ∷ []);
  job_output = none;
}

abbrev profile : JobProfile
profile = record { name = "Extract"; input_parameters = some ("file" ∷ []) }

abbrev assignment : JobAssignment String
assignment = record {
  job_id = "job";
  status = none;
  error = none;
  job_output = none;
  progress = none;
  date_modified = 0;
  notification_endpoint = some "https://example.org";
}

abbrev env : Environment String Table
env = record {
  table_get = λ id s. (ok s, s);
  table_put = λ id ja s. (ok tt, some ja);
  get_job = λ id s. (ok (some job), s);
  get_profile = λ id s. (ok (some profile), s);
  send_notification = λ ja s. (err "unreachable", s);
  sleep = λ n s. s;
  now = λ s. 7;
  type_value = "JobParameterBag";
}

abbrev helper : Helper String Table
helper = record { job_assignment = none; job = some job; profile = none; world = some assignment }

abbrev out_of_disk : ProblemDetail
out_of_disk = generic_failure "out of disk"

validate_job-ok_example : (validate_job profile job ≡ ok tt) ↔ (
    (ps : List String)
    → profile.input_parameters ≡ some ps
    → All (λ p. any_equal p (input_keys job.job_input) ≡ true) ps)
validate_job-ok_example = validate_job-ok profile job

-- A handler that throws.
abbrev throwing : ProcessJobProfile String Table
throwing = record { name = "Extract"; execute = λ h. (err "no codec", h) }

abbrev quiet : Table
quiet = some (record assignment { notification_endpoint = none })

abbrev start : Helper String Table
start = record { job_assignment = none; job = none; profile = none; world = quiet }

abbrev attempt : Helper String Table
attempt = (try_job env "1" "AmeJob" running (throwing ∷ []) start).1

process-Outcome_example :
    ((process env "1" "AmeJob" running (throwing ∷ []) start).0 ≡ ok tt)
    × Outcome env "1" "AmeJob" running
        (throwing ∷ [])
        start
        (process env "1" "AmeJob" running (throwing ∷ []) start).1
process-Outcome_example = process-Outcome env "1" "AmeJob" running (throwing ∷ []) start

abbrev underway : JobAssignment String
underway = record assignment {
  status = some running;
  date_modified = 7;
  notification_endpoint = none;
}

abbrev counting : WorkerOperation String (List String)
counting = record {
  accepts = named_filter "Count";
  execute = λ request s. (ok tt, request.operation_name ∷ s);
}

abbrev count_request : WorkerRequest String
count_request = record { operation_name = "Count"; input = none }

do_work-Work_example :
    Work count_request (counting ∷ []) [] (do_work (counting ∷ []) count_request [])
do_work-Work_example = do_work-Work count_request (counting ∷ []) []

counted : do_work (counting ∷ []) count_request [] ≡ (ok tt, "Count" ∷ [])
unfolding do_work
counted = refl
