-- ===== src/Controller/Reconcile/Preflight.antt =====
-- The preflight Job (follow.go), the finalizer (follow.go) and what a Migration owns
-- (migration_controller.go).
use pgcopydb_operator.Prelude.{
  ◌+◌, Bool, true, false, ◌&&◌, Option, none, some, if◌then◌else◌, not, is_some, ltb,
}
use pgcopydb_operator.Migration.{Time, follow_enabled}
use pgcopydb_operator.Migration.Name.{preflight}
use pgcopydb_operator.Migration.Conditions.{preflight_started}
use pgcopydb_operator.Platform.Types.{other_error, Job, patch_finalizer, create_owned, Api}
use pgcopydb_operator.Platform.Exec.{
  Exec, pure, raise, gets, ask, say, modify, ◌>>=◌, ◌>>◌, when, raise_some,
}
use pgcopydb_operator.Controller.Jobs.{
  Finish, job_running, job_succeeded, job_has_failed, job_finished, job_failed_at, ensure_job,
}
use pgcopydb_operator.Controller.Status.{emit, current_time}
use pgcopydb_operator.Controller.Compare.{failed_log_grace}

module _ (api : Api) where
  unfoldable pub preflight_read : Job → Bool → Time → Exec Finish
  preflight_read job failed now =
      if failed && api.has_logs && ltb now (job_failed_at job.conditions + failed_log_grace)
      then raise other_error
      else pure job_has_failed

  unfoldable pub preflight_result : Job → Finish → Exec Finish
  unfolding preflight_read ◌>>=◌
  preflight_result job job_running = pure job_running
  preflight_result job job_succeeded = pure job_succeeded
  preflight_result job job_has_failed = do
    failed ← ask (λ t. is_some (api.log_error t job.name))
    now ← current_time api
    preflight_read job failed now

  unfoldable pub preflight_job : Option Job → Exec Finish
  unfolding preflight_result
  preflight_job none = pure job_running
  preflight_job (some job) = preflight_result job (job_finished job.conditions)

  -- ensurePreflight: passed, failed with a message, or still running
  unfoldable pub ensure_preflight : Exec Finish
  unfolding preflight_job ◌>>=◌
  ensure_preflight = do
    got ← ensure_job api preflight
    when (got.1) (emit false preflight_started)
    preflight_job (got.0)

  -- ensureFinalizer
  unfoldable pub ensure_finalizer : Exec (Unit {0})
  unfolding ◌>>=◌
  ensure_finalizer = do
    needed ← gets (λ s. follow_enabled s.m && not s.m.finalizer)
    failed ← ask api.patch_error
    when needed (do
      modify (λ m. record m { finalizer = true })
      say (patch_finalizer true)
      raise_some failed)

  -- ensureOwned: the work volume and the filters, created or found owned.
  unfoldable pub ensure_owned : Exec (Unit {0})
  unfolding ◌>>=◌
  ensure_owned = do failed ← ask api.create_owned_error; say create_owned; raise_some failed
