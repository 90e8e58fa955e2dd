-- ===== src/Controller/Finish/Stages/Calm.antt =====
-- The Jobs of the finish paths are no workers, and a cleanup leaves the core alone.
use pgcopydb_operator.Prelude.{Bool, Option, none, some}
use pgcopydb_operator.Migration.{CloneProgress, ProgressKind}
use pgcopydb_operator.Migration.Conditions.{ConditionApi}
use pgcopydb_operator.Platform.Types.{namespace_terminating, Result, ok, err, Job, Api}
use pgcopydb_operator.Platform.Exec.Keeps.{Keeps}
use pgcopydb_operator.Controller.Frame.{Still, Calm, still_rules, calm_rules}
use pgcopydb_operator.Controller.Jobs.{Finish, job_running, job_succeeded, job_has_failed}
use pgcopydb_operator.Controller.Jobs.Calm.{ensure_job-Calm}
use pgcopydb_operator.Controller.Compare.{drop_compare_progress}
use pgcopydb_operator.Controller.Compare.Calm.{
  read_compare_progress-Still, record_compare_progress-Still,
}
use pgcopydb_operator.Controller.Finish.Stages.{
  read_clone_progress, catalog_done, ensure_catalog_check, verify_reads, verify_job, ensure_verify,
  cleanup_done, cleanup_answer, ensure_cleanup,
}

module _ (k : ConditionApi) (api : Api) where
  read_clone_progress-Still :
      (p : Option CloneProgress) → Keeps (Still k) (read_clone_progress api p)
  unfolding read_clone_progress
  read_clone_progress-Still none = search still_rules
  read_clone_progress-Still (some p) = search still_rules depth 14

  catalog_done-Still : (j : Option Job) → Keeps (Still k) (catalog_done api j)
  unfolding catalog_done
  catalog_done-Still none = search still_rules
  catalog_done-Still (some j) = search (still_rules, read_clone_progress-Still) depth 14

  pub ensure_catalog_check-Calm : Keeps (Calm k) (ensure_catalog_check api)
  unfolding ensure_catalog_check
  ensure_catalog_check-Calm = search (calm_rules, ensure_job-Calm, catalog_done-Still) depth 14

  verify_reads-Still : (j : Job) → Keeps (Still k) (verify_reads api j)
  unfolding verify_reads
  verify_reads-Still j =
      search
        (
          still_rules, read_clone_progress-Still, read_compare_progress-Still,
          record_compare_progress-Still,
        )
        depth 18

  verify_job-Still : (j : Option Job) → Keeps (Still k) (verify_job api j)
  unfolding verify_job
  verify_job-Still none = search still_rules
  verify_job-Still (some j) = verify_reads-Still j

  drop_compare_progress-Still : (p : ProgressKind) → Keeps (Still k) (drop_compare_progress p)
  drop_compare_progress-Still p = search still_rules depth 14

  pub ensure_verify-Calm : Keeps (Calm k) (ensure_verify api)
  unfolding ensure_verify
  ensure_verify-Calm =
      search (calm_rules, ensure_job-Calm, drop_compare_progress-Still, verify_job-Still) depth 16

  cleanup_done-Still : (f : Finish) → Keeps (Still k) (cleanup_done api f)
  unfolding cleanup_done
  cleanup_done-Still job_running = search still_rules
  cleanup_done-Still job_succeeded = search still_rules
  cleanup_done-Still job_has_failed = search still_rules depth 14

  cleanup_answer-Still : (r : Result (Option Job × Bool)) → Keeps (Still k) (cleanup_answer api r)
  unfolding cleanup_answer
  cleanup_answer-Still (err namespace_terminating) = search still_rules depth 14
  cleanup_answer-Still (err _) = search still_rules
  cleanup_answer-Still (ok r) = search (still_rules, cleanup_done-Still) depth 14

  pub ensure_cleanup-Calm : Keeps (Calm k) (ensure_cleanup api)
  unfolding ensure_cleanup
  ensure_cleanup-Calm = search (calm_rules, ensure_job-Calm, cleanup_answer-Still) depth 14
