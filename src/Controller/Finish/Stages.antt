-- ===== src/Controller/Finish/Stages.antt =====
-- The Jobs of the finish paths: the catalog check of a plain clone (verification.go), the drain
-- verification and the stream cleanup of a live migration (follow.go).
pub mod Calm
use pgcopydb_operator.Prelude.{
  ◌&&◌, is_some, not, ℕ, ◌+◌, ◌-◌, Bool, true, false, Option, none, some, if◌then◌else◌,
}
use pgcopydb_operator.Prelude.Word.{sub64, lt64}
use pgcopydb_operator.Migration.{CloneProgress, drain_run}
use pgcopydb_operator.Migration.Name.{catalog, verify, cleanup}
use pgcopydb_operator.Migration.Conditions.{Reason}
use pgcopydb_operator.Platform.Types.{
  Err, namespace_terminating, Result, ok, err, Job, Api, forget_metrics,
}
use pgcopydb_operator.Platform.Exec.{
  Pass, Exec, pure, raise, gets, ask, skip, status, ◌>>=◌, ◌>>◌, when, caught,
}
use pgcopydb_operator.Controller.Jobs.{
  Finish, job_running, job_succeeded, job_has_failed, job_finished, is_done, ensure_job,
}
use pgcopydb_operator.Controller.Status.{emit}
use pgcopydb_operator.Controller.Compare.{
  read_compare_progress, record_compare_progress, drop_compare_progress,
}
use pgcopydb_operator.Controller.Reown.{finish_of}

-- What the catalog check says: `owed > 0` once checked.
pub data Catalog : Type 0 where
  catalog_running tables_owed nothing_owed : Catalog

abbrev owed : CloneProgress → Catalog
owed p = if lt64 0 (sub64 p.tables_total p.tables_done) then tables_owed else nothing_owed

module _ (api : Api) where
  -- recordCloneProgress: the counters of a finished Job's log, where a line parses.
  unfoldable pub read_clone_progress : Option CloneProgress → Exec Catalog
  unfolding ◌>>=◌
  read_clone_progress none = pure nothing_owed
  read_clone_progress (some p) = do status (λ st. record st { progress = some p }); pure (owed p)

  catalog_done : Option Job → Exec Catalog
  unfolding read_clone_progress ◌>>=◌
  catalog_done none = pure catalog_running
  catalog_done (some job) =
      if not (is_done (job_finished job.conditions)) then pure catalog_running else do
        progress ← ask (λ t. api.catalog_progress t job.name)
        read_clone_progress (if api.has_logs then progress else none)

  -- ensureCatalogCheck
  unfoldable pub ensure_catalog_check : Exec Catalog
  unfolding catalog_done ◌>>=◌
  ensure_catalog_check = do got ← ensure_job api catalog; catalog_done (got.0)

  -- The reads that ensureVerify makes of a Job that is there.
  unfoldable pub verify_reads : Job → Exec Finish
  unfolding read_clone_progress ◌>>=◌
  verify_reads job =
      if not (is_done (job_finished job.conditions))
      then (do caught (read_compare_progress api drain_run job); pure job_running)
      else (do
        failed ← ask (λ t. api.log_error t job.name)
        when (api.has_logs && not (is_some failed)) (do
          progress ← ask (λ t. api.catalog_progress t job.name)
          read_clone_progress progress
          record_compare_progress api drain_run job)
        pure (job_finished job.conditions))

  unfoldable pub verify_job : Option Job → Exec Finish
  unfolding verify_reads
  verify_job none = pure job_running
  verify_job (some job) = verify_reads job

  -- ensureVerify: succeeded is verified, failed is refuted.
  unfoldable pub ensure_verify : Exec Finish
  unfolding verify_job ◌>>=◌
  ensure_verify = do
    got ← ensure_job api verify
    when (got.1) (drop_compare_progress drain_run)
    verify_job (got.0)

  unfoldable pub cleanup_done : Finish → Exec Bool
  unfolding ◌>>=◌
  cleanup_done job_running = pure false
  cleanup_done job_succeeded = pure true
  cleanup_done job_has_failed = do emit true Reason.cleanup_failed; pure true

  unfoldable pub cleanup_answer : Result (Option Job × Bool) → Exec Bool
  unfolding cleanup_done ◌>>=◌
  cleanup_answer (err namespace_terminating) = do emit true Reason.cleanup_failed; pure true
  cleanup_answer (err e) = raise e
  cleanup_answer (ok (job, created)) = do
    when created (emit false Reason.cleanup_started)
    cleanup_done (finish_of job)

  -- ensureCleanup: true once the replication state is dropped, and when it cannot be.
  unfoldable pub ensure_cleanup : Exec Bool
  unfolding cleanup_answer ◌>>=◌
  ensure_cleanup = do got ← caught (ensure_job api cleanup); cleanup_answer got
