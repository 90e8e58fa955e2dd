-- ===== src/Controller/Stop.antt =====
-- Suspending and deleting a Migration (migration_controller.go, follow.go).
pub mod Calm
use pgcopydb_operator.Prelude.{
  ℕ, ◌+◌, Bool, true, false, ◌&&◌, Option, none, some, if◌then◌else◌, not, is_some, ◌==◌,
}
use pgcopydb_operator.Prelude.Word.{add32, lt32}
use pgcopydb_operator.Migration.{Migration, suspended, follow_enabled}
use pgcopydb_operator.Migration.Name.{JobName, preflight, reown}
use pgcopydb_operator.Migration.Conditions.{
  ConditionType, ownership_applied, Reason, ownership_suspended, hold_suspended, slot_retained,
  unknown, ConditionApi,
}
use pgcopydb_operator.Platform.Types.{
  Err, not_found, Result, ok, err, Job, foreground, background, Next, finished, patch_finalizer,
  forget_metrics, Api,
}
use pgcopydb_operator.Platform.Exec.{
  Pass, Exec, pure, raise, gets, ask, skip, say, modify, status, ◌>>=◌, ◌>>◌, when, raise_some,
}
use pgcopydb_operator.Controller.Jobs.{job_finished, is_done, get_job, delete_job_ok}
use pgcopydb_operator.Controller.Status.{set_condition, set_phase, emit, update_status}
use pgcopydb_operator.Controller.Hold.{end_hold}
use pgcopydb_operator.Controller.Rehearsal.{cancel_rehearsal}
use pgcopydb_operator.Controller.Gate.{delete_gate_job}
use pgcopydb_operator.Controller.Reown.{poll, reown_requested}
use pgcopydb_operator.Controller.Finish.Stages.{ensure_cleanup}

module _ (k : ConditionApi) (api : Api) where
  -- The worker's Job, deleted in the foreground.
  stop_found : Result Job → Exec (Unit {0})
  unfolding ◌>>=◌
  stop_found (ok job) = do
    delete_job_ok api job.name foreground
    emit false Reason.suspended
    follow ← gets (λ s. follow_enabled s.m)
    when follow (emit true slot_retained)
  stop_found (err not_found) = skip
  stop_found (err e) = raise e

  stop_worker : Option JobName → Exec (Unit {0})
  unfolding stop_found ◌>>=◌
  stop_worker none = skip
  stop_worker (some name) = do
    got ← get_job api name
    stop_found got
    status (λ st. record st { job_name = none })

  -- The preflight of a Migration that has not started an attempt.
  stop_preflight : Result Job → Exec (Unit {0})
  unfolding ◌>>=◌
  stop_preflight (ok job) = do delete_job_ok api job.name background; emit false Reason.suspended
  stop_preflight (err not_found) = skip
  stop_preflight (err e) = raise e

  -- The handover; a finished Job stays.
  stop_reown : Result Job → Exec (Unit {0})
  unfolding ◌>>=◌
  stop_reown (ok job) = when (not (is_done (job_finished job.conditions))) (do
    delete_job_ok api job.name foreground
    set_condition k ownership_applied unknown ownership_suspended
    emit false Reason.suspended)
  stop_reown (err not_found) = skip
  stop_reown (err e) = raise e

  -- reconcileSuspended
  unfoldable pub reconcile_suspended : Exec Next
  unfolding stop_worker stop_preflight stop_reown ◌>>=◌
  reconcile_suspended = do
    cancel_rehearsal api
    worker ← gets (λ s. s.m.status.job_name)
    stop_worker worker
    attempts ← gets (λ s. s.m.status.attempts)
    when (attempts == 0) (do got ← get_job api preflight; stop_preflight got)
    handover ← gets (λ s. reown_requested s.m)
    when handover (do got ← get_job api reown; stop_reown got)
    delete_gate_job k api (add32 attempts 1)
    end_hold k hold_suspended
    set_phase suspended
    update_status api
    pure finished

  -- RemoveFinalizer and its patch.
  remove_finalizer : Exec Next
  unfolding ◌>>=◌
  remove_finalizer = do
    modify (λ m. record m { finalizer = false })
    failed ← ask api.patch_error
    say (patch_finalizer false)
    raise_some failed
    say forget_metrics
    pure finished

  cleaned_up : Exec Next
  unfolding remove_finalizer ◌>>=◌
  cleaned_up = do done ← ensure_cleanup api; if done then remove_finalizer else pure poll

  -- The worker is stopped before the cleanup.
  after_worker : Result Job → Exec Next
  unfolding cleaned_up ◌>>=◌
  after_worker (ok job) =
      if job.deleting then cleaned_up else do delete_job_ok api job.name foreground; pure poll
  after_worker (err e) = cleaned_up

  with_worker : Option JobName → Exec Next
  unfolding after_worker cleaned_up ◌>>=◌
  with_worker none = cleaned_up
  with_worker (some name) = do got ← get_job api name; after_worker got

  -- reconcileDeletion
  unfoldable pub reconcile_deletion : Exec Next
  unfolding with_worker remove_finalizer ◌>>=◌
  reconcile_deletion = do
    cancel_rehearsal api
    guarded ← gets (λ s. s.m.finalizer)
    attempts ← gets (λ s. s.m.status.attempts)
    worker ← gets (λ s. s.m.status.job_name)
    if not guarded
        then (do say forget_metrics; pure finished)
        else if lt32 0 attempts
        then with_worker worker
        else remove_finalizer
