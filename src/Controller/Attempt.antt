-- ===== src/Controller/Attempt.antt =====
-- Starting and losing worker attempts (migration_controller.go).
pub mod Onward
pub mod Spent
use pgcopydb_operator.Prelude.{
  ℕ, ◌+◌, ◌*◌, Bool, true, false, ◌&&◌, ◌||◌, Option, none, some, if◌then◌else◌, not, is_some, ltb,
  ◌==◌,
}
use pgcopydb_operator.Prelude.Word.{add32, lt32}
use pgcopydb_operator.Migration.{Migration, Time, follow_enabled, RetryGateStatus, undecided}
use pgcopydb_operator.Migration.Name.{JobName, worker}
use pgcopydb_operator.Migration.Conditions.{
  ConditionType, clone_completed, retry_held, Reason, clone_running, gate_passed, gate_probing,
  attempt_started, attempt_failed, clone_failed, permission_denied, disk_full, schema_drift,
  snapshot_lost, no_false, ConditionApi,
}
use pgcopydb_operator.Platform.Types.{
  Err, not_found, already_exists, other_error, Result, ok, err, Job, WorkerLog, Next, after,
  finished, requeue, Api,
}
use pgcopydb_operator.Platform.Exec.{
  Pass, Exec, pure, raise, gets, ask, skip, status, ◌>>=◌, ◌>>◌, when, raise_some,
}
use pgcopydb_operator.Text.{trim_space}
use pgcopydb_operator.Controller.WorkerLog.{read_worker_log}
use pgcopydb_operator.Controller.Jobs.{get_job_uncached, create_named, unless_exists, job_failed_at}
use pgcopydb_operator.Controller.Status.{set_condition, holds, emit, current_time, update_status}
use pgcopydb_operator.Controller.Hold.{attempt_phase, set_hold, fail}
use pgcopydb_operator.Controller.Budget.{
  on_failure_path, undecided_in, budget_spent, fail_budget, settle_budget,
}
use pgcopydb_operator.Controller.Compare.{failed_log_grace}
use pgcopydb_operator.Controller.Rehearsal.{cancel_rehearsal}
use pgcopydb_operator.Controller.Gate.{retry_gate, delete_gate_job}
use pgcopydb_operator.Controller.Reown.{poll, reown_job_exists}
use pgcopydb_operator.Controller.Finish.{finish_clone, finish_follow}

abbrev first_time : Option Time → Time → Option Time
first_time none now = some now
first_time (some t) now = some t

-- The cause that the log gives for a failed attempt, in the order of the tests.
pub data Cause : Type 0 where
  terminal : Reason → Cause
  start_over retryable : Cause

-- The classification of handleFailedJob; a start-over needs spec.clone.dropIfExists.
unfoldable pub failure_cause : WorkerLog → Bool → Cause
failure_cause log drop_if_exists =
    if log.permission_denied
    then terminal permission_denied
    else if log.disk_full
    then terminal disk_full
    else if log.schema_drift
    then terminal schema_drift
    else if log.snapshot_lost
    then (if drop_if_exists then start_over else terminal snapshot_lost)
    else retryable

-- An unreadable log shows nothing.
abbrev pub no_log : WorkerLog
no_log = record {
  permission_denied = false;
  disk_full = false;
  schema_drift = false;
  snapshot_lost = false;
  clone_done = false;
  supervisor_death = none;
}

module _ (k : ConditionApi) (api : Api) where
  -- recordAttempt
  unfoldable pub record_attempt : JobName → Bool → Exec Next
  unfolding ◌>>=◌
  record_attempt job announce = do
    attempt ← gets (λ s. add32 s.m.status.attempts 1)
    now ← current_time api
    status (λ st. record st {
      started_at = first_time st.started_at now;
      attempts = attempt;
      job_name = some job;
    })
    phase ← gets (λ s. attempt_phase k s.m)
    status (λ st. record st { phase = phase })
    copied ← gets (λ s. holds k s.m clone_completed)
    when (not copied) (set_condition k clone_completed no_false clone_running)
    when (lt32 1 attempt) (do
      status (λ st. record st { retry_gate = none })
      set_condition k retry_held no_false gate_passed)
    when announce (emit false attempt_started)
    update_status api
    when (lt32 1 attempt) (delete_gate_job k api attempt)
    pure poll

  -- The create at the end of startAttempt.
  create_worker : ℕ → Exec Next
  unfolding ◌>>=◌
  create_worker attempt = do
    m ← gets (λ s. s.m)
    raise_some (api.build_error m (worker attempt))
    failed ← create_named api (worker attempt)
    raise_some (unless_exists failed)
    record_attempt (worker attempt) (not (is_some failed))

  -- The gate and the settled budget, for an attempt after the first.
  gated_attempt : ℕ → Exec Next
  unfolding create_worker ◌>>=◌
  gated_attempt attempt = do
    got ← retry_gate k api attempt
    if not (got.1) then pure (got.0) else do
      failed ← settle_budget k api
      if failed then pure finished else create_worker attempt

  -- startAttempt behind the look for a worker that a crashed pass left unrecorded.
  unrecorded_checked : ℕ → Exec Next
  unfolding gated_attempt create_worker ◌>>=◌
  unrecorded_checked attempt = do
    over ← gets (λ s.
        (not (on_failure_path s.m) || not (undecided_in s.m.status.retry_gate)) && budget_spent s.m)
    if over
        then (do fail_budget k; update_status api; pure finished)
        else if lt32 1 attempt
        then gated_attempt attempt
        else create_worker attempt

  unrecorded : ℕ → Result Job → Exec Next
  unfolding unrecorded_checked
  unrecorded attempt (ok job) = record_attempt job.name false
  unrecorded attempt (err not_found) = unrecorded_checked attempt
  unrecorded attempt (err e) = raise e

  -- startAttempt
  unfoldable pub start_attempt : Exec Next
  unfolding unrecorded unrecorded_checked ◌>>=◌
  start_attempt = do
    attempt ← gets (λ s. add32 s.m.status.attempts 1)
    if not (lt32 1 attempt)
        then unrecorded_checked attempt
        else do got ← get_job_uncached api (worker attempt); unrecorded attempt got

  -- nextAttempt
  unfoldable pub next_attempt : Exec Next
  unfolding ◌>>=◌
  next_attempt = do
    cancel_rehearsal api
    exists ← reown_job_exists k api
    follow ← gets (λ s. follow_enabled s.m)
    copied ← gets (λ s. holds k s.m clone_completed)
    if not follow && (exists || copied)
        then finish_clone k api
        else if exists
        then finish_follow k api
        else start_attempt

  -- The failed attempt handed to the retry gate.
  hand_to_gate : Job → WorkerLog → Exec Next
  unfolding ◌>>=◌
  hand_to_gate job log = do
    now ← current_time api
    let failed = job_failed_at job.conditions
    status (λ st. record st {
      retry_gate = some (record {
        failed_attempt = st.attempts;
        failed_at = if failed == 0 then now else failed;
        exemption = undecided;
        clone_done_seen = log.clone_done;
      });
    })
    set_hold k api gate_probing
    status (λ st. record st { job_name = none })
    update_status api
    pure requeue

  by_cause : Job → WorkerLog → Cause → Exec Next
  unfolding hand_to_gate ◌>>=◌
  by_cause job log (terminal r) = do
    set_condition k clone_completed no_false clone_failed
    fail k r
    update_status api
    pure finished
  by_cause job log start_over = do
    set_condition k clone_completed no_false snapshot_lost
    emit true snapshot_lost
    hand_to_gate job log
  by_cause job log retryable = do emit true attempt_failed; hand_to_gate job log

  -- A read error is retried for failedLogGrace after the failure.
  abbrev still_readable : Job → Bool → Time → Bool
  still_readable job failed now =
      failed && api.has_logs && ltb now (job_failed_at job.conditions + failed_log_grace)

  -- handleFailedJob
  unfoldable pub handle_failed_job : Job → Exec Next
  unfolding by_cause ◌>>=◌
  handle_failed_job job = do
    cancel_rehearsal api
    failed ← ask (λ t. is_some (api.log_error t job.name))
    seen ←
        ask
          (λ t. read_worker_log api.decode api.parse_time (trim_space (api.worker_log t job.name)))
    now ← current_time api
    drop ← gets (λ s. s.m.spec.clone.drop_if_exists)
    let log = if api.has_logs && not failed then seen else no_log
    if still_readable job failed now
        then raise other_error
        else by_cause job log (failure_cause log drop)
