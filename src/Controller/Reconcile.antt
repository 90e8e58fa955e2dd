-- ===== src/Controller/Reconcile.antt =====
-- One pass over a Migration (migration_controller.go): Reconcile, reconcile and the preflight gate.
pub mod Preflight
pub mod Calm
pub mod Onward
pub mod Dry
pub mod Passes
use pgcopydb_operator.Prelude.{
  ℕ, ◌+◌, Bool, true, false, ◌&&◌, ◌||◌, Option, none, some, List, [], ◌∷◌, if◌then◌else◌, not,
  is_some, ltb, ◌==◌,
}
use pgcopydb_operator.Migration.{
  Migration, MigrationStatus, Phase, pending, validating, unset, Time, follow_enabled,
}
use pgcopydb_operator.Migration.Name.{JobName, worker, preflight}
use pgcopydb_operator.Migration.Conditions.{
  ConditionType, validated, complete, commits_blocked, Reason, invalid_spec, preflight_failed,
  preflight_running, preflight_started, preflight_passed, spec_valid, dry_run_succeeded,
  worker_succeeded, yes_true, no_false, unknown, Condition, ConditionApi,
}
use pgcopydb_operator.Platform.Types.{
  Err, not_found, conflict, other_error, Result, ok, err, Job, Next, after, finished, requeue,
  stop_sampling, forget_metrics, patch_status, patch_finalizer, create_owned, record_work_node, Api,
}
use pgcopydb_operator.Platform.Exec.{
  Pass, Exec, pure, raise, lift, gets, ask, skip, say, modify, status, ◌>>=◌, ◌>>◌, when,
  raise_some,
}
use pgcopydb_operator.Controller.Jobs.{
  Finish, job_running, job_succeeded, job_has_failed, job_finished, job_failed_at, ensure_job,
  get_job,
}
use pgcopydb_operator.Controller.Status.{
  set_condition, holds, set_phase, emit, current_time, update_status, observe_generation, patch,
}
use pgcopydb_operator.Controller.Hold.{fail}
use pgcopydb_operator.Controller.Compare.{failed_log_grace}
use pgcopydb_operator.Controller.Rehearsal.{cancel_rehearsal, running_in}
use pgcopydb_operator.Controller.Reown.{poll}
use pgcopydb_operator.Controller.Finish.{finish_clone, finish_follow, answered}
use pgcopydb_operator.Controller.Attempt.{next_attempt, handle_failed_job}
use pgcopydb_operator.Controller.Observe.{observe_running_job}
use pgcopydb_operator.Controller.Stop.{reconcile_suspended, reconcile_deletion}
use Preflight.{ensure_preflight, ensure_finalizer, ensure_owned}

-- statusIsEmpty: no field of the status was ever set.
abbrev is_unset : Phase → Bool
is_unset unset = true
is_unset _ = false

abbrev is_empty {ℓ} : {A : Type ℓ} → List A → Bool
is_empty [] = true
is_empty (x ∷ xs) = false

unfoldable pub status_is_empty : MigrationStatus → Bool
status_is_empty st =
    is_unset st.phase
    && is_empty st.conditions
    && st.observed_generation == 0
    && st.attempts == 0
    && st.exempt_attempts == 0
    && not (is_some st.retry_gate)
    && not (is_some st.progress)
    && not (is_some st.replication)
    && is_empty st.verification
    && not (is_some st.rehearsal)
    && is_empty st.verification_progress
    && not (is_some st.job_name)
    && not (is_some st.started_at)
    && not (is_some st.completed_at)

abbrev no_conflict : Result Next → Result Next
no_conflict (err conflict) = ok requeue
no_conflict r = r

-- A Migration that is Complete or Failed.
abbrev pub is_terminal : ConditionApi → Migration → Bool
is_terminal k m = holds k m complete || holds k m ConditionType.failed

module _ (k : ConditionApi) (api : Api) where
  -- The switch of preflightGate; an answer ends the pass.
  gate_result : Finish → Exec (Option Next)
  unfolding ◌>>=◌
  gate_result job_has_failed = do
    set_condition k validated no_false preflight_failed
    fail k preflight_failed
    update_status api
    pure (some finished)
  gate_result job_running = do
    set_condition k validated unknown preflight_running
    set_phase validating
    update_status api
    pure (some poll)
  gate_result job_succeeded = do
    known ← gets (λ s. holds k s.m validated)
    when (not known) (emit false preflight_passed)
    pure none

  -- preflightGate
  unfoldable pub preflight_gate : Exec (Option Next)
  unfolding gate_result ◌>>=◌
  preflight_gate = do
    attempts ← gets (λ s. s.m.status.attempts)
    if not (attempts == 0) then pure none else do result ← ensure_preflight api; gate_result result

  -- completeDryRun
  pub complete_dry_run : Exec Next
  unfolding ◌>>=◌
  complete_dry_run = do
    now ← current_time api
    status (λ st. record st { completed_at = some now; phase = Phase.completed })
    set_condition k complete yes_true dry_run_succeeded
    emit false dry_run_succeeded
    update_status api
    pure finished

  -- A finished worker.
  worker_done : Job → Exec Next
  unfolding ◌>>=◌
  worker_done job = do
    known ← gets (λ s. is_some (k.find s.m.status.conditions commits_blocked))
    when known (set_condition k commits_blocked no_false worker_succeeded)
    follow ← gets (λ s. follow_enabled s.m)
    if follow then finish_follow k api else finish_clone k api

  on_worker : Time → Job → Finish → Exec Next
  unfolding worker_done
  on_worker start job job_running = observe_running_job k api job start
  on_worker start job job_succeeded = worker_done job
  on_worker start job job_has_failed = handle_failed_job k api job

  worker_job : Time → Result Job → Exec Next
  unfolding on_worker
  worker_job start (err not_found) = next_attempt k api
  worker_job start (err e) = raise e
  worker_job start (ok job) = on_worker start job (job_finished job.conditions)

  current_worker : Time → Option JobName → Exec Next
  unfolding worker_job ◌>>=◌
  current_worker start none = next_attempt k api
  current_worker start (some name) = do got ← get_job api name; worker_job start got

  -- The pass behind the preflight gate.
  after_gate : Time → Exec Next
  unfolding complete_dry_run current_worker ◌>>=◌
  after_gate start = do
    set_condition k validated yes_true spec_valid
    m ← gets (λ s. s.m)
    if m.spec.dry_run then complete_dry_run else current_worker start m.status.job_name

  -- The validation by buildJob and what is owned, before the gate.
  pub active_pass : Time → Exec Next
  unfolding after_gate ◌>>=◌
  active_pass start = do
    invalid ← gets (λ s. is_some (api.build_error s.m (worker 1)))
    if invalid
        then (do
          set_condition k validated no_false invalid_spec
          fail k invalid_spec
          update_status api
          pure finished)
        else (do
          ensure_finalizer api
          ensure_owned api
          say record_work_node
          handled ← preflight_gate
          answered handled (after_gate start))

  -- A finished Migration: only a rehearsal still running is stopped.
  pub terminal_pass : Exec Next
  unfolding ◌>>=◌
  terminal_pass = do
    running ← gets (λ s. running_in s.m.status.rehearsal)
    when running (do cancel_rehearsal api; update_status api)
    pure finished

  -- The first write of a status.
  pub first_pass : Exec Next
  unfolding ◌>>=◌
  first_pass = do set_phase pending; observe_generation api; patch api true; pure (after 1)

  -- reconcile, for a Migration that was found. stopSampling runs before the deletion; the one that
  -- every pass ends with is not modelled.
  unfoldable pub reconcile : Exec Next
  unfolding terminal_pass first_pass active_pass ◌>>=◌
  reconcile = do
    start ← current_time api
    m ← gets (λ s. s.m)
    if m.deleting
        then (do say stop_sampling; reconcile_deletion k api)
        else if is_terminal k m
        then terminal_pass
        else if status_is_empty m.status
        then first_pass
        else if m.spec.suspend
        then reconcile_suspended k api
        else active_pass start

  -- Reconcile: a write conflict asks for another pass.
  unfoldable pub reconcile_request : Exec Next
  reconcile_request s = let (r, s') = reconcile s in (no_conflict r, s')
