-- ===== src/Worker/Jobs/Helper/Laws.antt =====
-- What the helper does to the job assignment in the table.
use mcma_libraries.Prelude.{
  ◌≡◌, refl, subst, ap, true, String, Option, none, some, List, [], ◌∷◌, ok, ◌↔◌, inl, inr,
  Bool-cases, All, any_equal, is_nil,
}
use mcma_libraries.Worker.Jobs.{JobAssignment, Job, JobProfile, Environment}
use mcma_libraries.Worker.Jobs.Helper.{
  Helper, send_notification, missing, input_keys, validate_job, report, validate,
}

-- A table that answers: `stored` is the job assignment under the identifier. A notification may
-- fail, and leaves the table alone.
pub record Answers {V S : Type 0} (env : Environment V S) (id : String)
    (stored : S → Option (JobAssignment V)) : Type 0 where
  pub get_answer : (s : S) → (env.table_get id s).0 ≡ ok (stored s)
  pub get_effect : (s : S) → stored (env.table_get id s).1 ≡ stored s
  pub put_answer : (ja : JobAssignment V) (s : S) → (env.table_put id ja s).0 ≡ ok tt
  pub put_effect : (ja : JobAssignment V) (s : S) → stored (env.table_put id ja s).1 ≡ some ja
  pub notify_effect :
      (ja : JobAssignment V) (s : S) → stored (env.send_notification ja s).1 ≡ stored s

-- What the parameters of a list lack in a list of keys.
missing-All :
    (keys ps : List String)
    → (is_nil (missing keys ps) ≡ true) ↔ All (λ p. any_equal p keys ≡ true) ps
unfolding missing
missing-All keys [] = (λ _. tt, λ _. refl)
missing-All keys (p ∷ ps) = elim (Bool-cases (any_equal p keys)) [
  | inl has ↦
      rw has (λ e. (refl, (missing-All keys ps).0 e), λ (_, all). (missing-All keys ps).1 all)
  | inr lacks ↦ rw lacks (λ e. cc, λ (e, _). cc)
]

report-nil : (ps : List String) → (report ps ≡ ok tt) ↔ (is_nil ps ≡ true)
report-nil [] = (λ _. refl, λ _. refl)
report-nil (p ∷ ps) = (λ e. cc, λ e. cc)

given : List String → Option (List String) → List String
given default none = default
given default (some ps) = ps

validate-ok :
    (parameters : Option (List String)) (found : List String)
    → (validate parameters found ≡ ok tt)
      ↔ ((ps : List String) → parameters ≡ some ps → All (λ p. any_equal p found ≡ true) ps)
unfolding validate given
validate-ok none found = (λ e ps f. cc, λ all. refl)
validate-ok (some ps) found = (
  λ e qs f.
      subst (All (λ p. any_equal p found ≡ true)) (ap (given ps) f)
        ((missing-All found ps).0 ((report-nil (missing found ps)).0 e)),
  λ all. (report-nil (missing found ps)).1 ((missing-All found ps).1 (all ps refl)),
)

-- validateJob answers without an exception just where every input parameter of the profile, if it
-- lists any, is a key of the input of the job.
pub validate_job-ok :
    {V : Type 0} (profile : JobProfile) (job : Job V)
    → (validate_job profile job ≡ ok tt) ↔ (
        (ps : List String)
        → profile.input_parameters ≡ some ps
        → All (λ p. any_equal p (input_keys job.job_input) ≡ true) ps)
unfolding validate_job
validate_job-ok profile job = validate-ok profile.input_parameters (input_keys job.job_input)
