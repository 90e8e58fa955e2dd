-- ===== src/Controller/Verification.antt =====
-- The compare checks on the success path (verification.go). They report and do not gate.
pub mod Calm
use pgcopydb_operator.Prelude.{
  ℕ, Bool, true, false, ◌||◌, Option, none, some, List, [], ◌∷◌, ◌++◌, if◌then◌else◌, not,
}
use pgcopydb_operator.Migration.{
  Migration, verifying, Check, schema_check, data_check, VerificationOptions, VerificationResult,
  data_run,
}
use pgcopydb_operator.Migration.Name.{JobName, compare_schema, compare_data}
use pgcopydb_operator.Migration.Conditions.{
  ConditionType, Reason, verification_running, verification_started, verification_mismatch,
  compare_passed, data_mismatch, schema_mismatch, yes_true, no_false, unknown, ConditionApi,
}
use pgcopydb_operator.Platform.Types.{Job, Api}
use pgcopydb_operator.Platform.Exec.{
  Pass, Exec, pure, gets, skip, status, ◌>>=◌, ◌>>◌, when, until_false,
}
use pgcopydb_operator.Controller.Jobs.{
  Finish, job_running, job_succeeded, job_has_failed, job_finished, job_finished_at, is_success,
  is_done, ensure_job,
}
use pgcopydb_operator.Controller.Status.{set_condition, set_phase, emit}
use pgcopydb_operator.Controller.Compare.{read_compare_progress, drop_compare_progress}
use pgcopydb_operator.Controller.Rehearsal.{status_time}

-- enabledChecks, and the test of verificationRequested: schema first
abbrev pub enabled_checks : Option VerificationOptions → List Check
enabled_checks none = []
enabled_checks (some v) =
    (if v.schema then schema_check ∷ [] else []) ++ (if v.compare_data then data_check ∷ [] else [])

-- compareJobName
abbrev pub compare_job_name : Check → JobName
compare_job_name schema_check = compare_schema
compare_job_name data_check = compare_data

abbrev pub is_data : Check → Bool
is_data data_check = true
is_data schema_check = false

-- The checks that failed, in order; mismatched[0] decides the reason.
abbrev mismatch_reason : List Check → Reason
mismatch_reason [] = compare_passed
mismatch_reason (schema_check ∷ cs) = schema_mismatch
mismatch_reason (data_check ∷ cs) = data_mismatch

abbrev failed_checks : List VerificationResult → List Check
failed_checks [] = []
failed_checks (r ∷ rs) = let rest = failed_checks rs in if r.passed then rest else r.check ∷ rest

module _ (k : ConditionApi) (api : Api) where
  -- A compare Job that has just been created.
  check_started : Check → Bool → Exec Bool
  unfolding ◌>>=◌
  check_started check created = do
    set_condition k ConditionType.verified unknown verification_running
    when created (emit false verification_started)
    when created (when (is_data check) (drop_compare_progress data_run))
    pure false

  -- m.Status.Verification = append(m.Status.Verification, …)
  append_result : Check → Job → Exec (Unit {0})
  append_result check job = status (λ st. record st {
    verification =
        st.verification
        ++ (record {
          check = check;
          passed = is_success (job_finished job.conditions);
          started_at = job.start_time;
          completed_at = status_time (job_finished_at job);
        }
            ∷ []);
  })

  check_job : Check → Option Job × Bool → Exec Bool
  unfolding check_started append_result ◌>>=◌
  check_job check (none, created) = check_started check created
  check_job check (some job, created) = do
    when (is_data check) (read_compare_progress api data_run job)
    if is_done (job_finished job.conditions)
        then (do append_result check job; pure true)
        else pure false

  -- The body of the loop over the checks: one Job, false while it runs.
  run_check : Check → Exec Bool
  unfolding check_job ◌>>=◌
  run_check check = do got ← ensure_job api (compare_job_name check); check_job check got

  report : List Check → Exec Bool
  unfolding ◌>>=◌
  report [] = do
    set_condition k ConditionType.verified yes_true compare_passed
    emit false Reason.verified
    pure true
  report (c ∷ cs) = do
    set_condition k ConditionType.verified no_false (mismatch_reason (c ∷ cs))
    emit true verification_mismatch
    pure true

  -- ensureVerification: false while a compare Job still runs.
  unfoldable pub verify_checks : List Check → Exec Bool
  unfolding report run_check ◌>>=◌
  verify_checks [] = pure true
  verify_checks (c ∷ cs) = do
    set_phase verifying
    status (λ st. record st { verification = [] })
    done ← until_false run_check (c ∷ cs)
    results ← gets (λ s. s.m.status.verification)
    if done then report (failed_checks results) else pure false

  unfoldable pub ensure_verification : Exec Bool
  unfolding verify_checks ◌>>=◌
  ensure_verification = do
    checks ← gets (λ s. enabled_checks s.m.spec.verification)
    verify_checks checks
