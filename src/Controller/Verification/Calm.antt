-- ===== src/Controller/Verification/Calm.antt =====
-- The compare checks create no worker and complete nothing.
use pgcopydb_operator.Prelude.{◌≡◌, refl, Bool, Option, none, some, List, [], ◌∷◌}
use pgcopydb_operator.Migration.{Check, schema_check, data_check}
use pgcopydb_operator.Migration.Conditions.{ConditionApi, IsLawful}
use pgcopydb_operator.Platform.Types.{Job, Api}
use pgcopydb_operator.Platform.Exec.Keeps.{Keeps}
use pgcopydb_operator.Controller.Frame.{Still, Calm, is_worker, still_rules, calm_rules}
use pgcopydb_operator.Controller.Jobs.Calm.{ensure_job-Calm}
use pgcopydb_operator.Controller.Compare.Calm.{read_compare_progress-Still}
use pgcopydb_operator.Controller.Verification.{
  compare_job_name, check_started, append_result, check_job, run_check, report, verify_checks,
  ensure_verification,
}

compare_job_name-ne-worker : (c : Check) → is_worker (compare_job_name c) ≡ Bool.false
compare_job_name-ne-worker schema_check = refl
compare_job_name-ne-worker data_check = refl

module _ (k : ConditionApi) (L : IsLawful k) (api : Api) where
  check_started-Still : (c : Check) (b : Bool) → Keeps (Still k) (check_started k api c b)
  unfolding check_started
  check_started-Still c b = search still_rules depth 16

  append_result-Still : (c : Check) (j : Job) → Keeps (Still k) (append_result k api c j)
  unfolding append_result
  append_result-Still c j = search still_rules depth 14

  check_job-Still : (c : Check) (r : Option Job × Bool) → Keeps (Still k) (check_job k api c r)
  unfolding check_job
  check_job-Still c (none, b) = check_started-Still c b
  check_job-Still c (some job, b) =
      search (still_rules, read_compare_progress-Still, append_result-Still) depth 16

  run_check-Calm : (c : Check) → Keeps (Calm k) (run_check k api c)
  unfolding run_check
  run_check-Calm c =
      search (calm_rules, ensure_job-Calm, compare_job_name-ne-worker, check_job-Still) depth 16

  report-Still : (cs : List Check) → Keeps (Still k) (report k api cs)
  unfolding report
  report-Still [] = search still_rules depth 14
  report-Still (c ∷ cs) = search still_rules depth 14

  verify_checks-Calm : (cs : List Check) → Keeps (Calm k) (verify_checks k api cs)
  unfolding verify_checks
  verify_checks-Calm [] = search calm_rules
  verify_checks-Calm (c ∷ cs) = search (calm_rules, run_check-Calm, report-Still) depth 16

  pub ensure_verification-Calm : Keeps (Calm k) (ensure_verification k api)
  unfolding ensure_verification
  ensure_verification-Calm = search (calm_rules, verify_checks-Calm) depth 16
