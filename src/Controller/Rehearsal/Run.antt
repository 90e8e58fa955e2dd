-- ===== src/Controller/Rehearsal/Run.antt =====
-- Starting and observing a verification rehearsal (rehearsal.go).
pub mod Calm
pub mod Once
use pgcopydb_operator.Prelude.{
  ℕ, ◌+◌, Bool, true, false, ◌&&◌, ◌||◌, Option, none, some, List, [], ◌∷◌, if◌then◌else◌, not,
  is_some, first, ◌==◌,
}
use pgcopydb_operator.Prelude.Word.{add32}
use pgcopydb_operator.Migration.{
  Migration, Phase, streaming, cutover_pending, cutting_over, Time, RehearsalStatus, Outcome,
  not_run, is_running, is_automatic, VerificationOptions, rehearsal_run,
}
use pgcopydb_operator.Migration.Name.{JobName, rehearsal, is_rehearsal_name, same_name}
use pgcopydb_operator.Migration.Conditions.{
  ConditionType, cutover_complete, Reason, rehearsal_pod_remains, same_reason, Verdict,
  verdict_true, unknown, Condition, ConditionApi,
}
use pgcopydb_operator.Platform.Types.{
  Err, not_found, Result, ok, err, Job, Pod, PodPhase, pod_succeeded, pod_failed, Selector, by_job,
  by_migration, foreground, Api,
}
use pgcopydb_operator.Platform.Exec.{
  Pass, Exec, pure, raise, lift, gets, ask, skip, status, ◌>>=◌, ◌>>◌, when, modify, caught,
  for_each,
}
use pgcopydb_operator.Controller.Jobs.{
  job_finished, job_finished_at, Finish, job_running, job_succeeded, job_has_failed, is_done,
  get_job, get_job_uncached, delete_job_ok, ensure_job,
}
use pgcopydb_operator.Controller.Status.{set_condition, emit, current_time}
use pgcopydb_operator.Controller.Compare.{read_compare_progress, drop_compare_progress}
use pgcopydb_operator.Controller.Rehearsal.{
  wants_rehearsal, rehearsal_requested, armed_in, running_in, status_time, mapped, on_rehearsal,
  blank, or_blank, next_run, record_rehearsal, rehearsal_pod, rehearsal_job, recorded_job,
  cancel_rehearsal, canceled_now,
}

module _ (api : Api) where
  -- startRehearsal: the previous run's Job is deleted first.
  delete_named : Option JobName → JobName → Exec (Unit {0})
  delete_named none name = skip
  delete_named (some old) name = when (not (same_name old name)) (delete_job_ok api old foreground)

  abbrev started_run : ℕ → RehearsalStatus
  started_run run = record {
    armed = true;
    run = run;
    job_name = some (rehearsal run);
    started_at = none;
    completed_at = none;
    outcome = Outcome.running;
  }

  unfoldable pub start_rehearsal : Exec (Unit {0})
  unfolding delete_named ◌>>=◌
  start_rehearsal = do
    prev ← gets (λ s. s.m.status.rehearsal)
    delete_named (or_blank prev).job_name (rehearsal (next_run prev))
    ensure_job api (rehearsal (next_run prev))
    drop_compare_progress rehearsal_run
    status (λ st. record st { rehearsal = some (started_run (next_run prev)) })

  -- observeRehearsal: a Job that vanished is never recreated.
  observe_job : Option Job → Exec (Unit {0})
  unfolding ◌>>=◌
  observe_job none = do
    now ← current_time api
    on_rehearsal (λ r. record r { outcome = Outcome.failed; completed_at = status_time now })
  observe_job (some job) = do read_compare_progress api rehearsal_run job; record_rehearsal job

  unfoldable pub observe_rehearsal : Exec (Unit {0})
  unfolding observe_job recorded_job ◌>>=◌
  observe_rehearsal = do
    st ← gets (λ s. s.m.status.rehearsal)
    if not (running_in st)
        then skip
        else do job ← recorded_job api (or_blank st).job_name; observe_job job

  -- rehearsalNotStarted: a status is there, and its message says why no run started.
  not_started : Exec (Unit {0})
  not_started = status (λ st. record st { rehearsal = some (or_blank st.rehearsal) })

  -- `rehearsal` was set to false: the run is cancelled, and disarmed once no pod is left.
  pub disarm : Exec (Unit {0})
  unfolding ◌>>=◌
  disarm = do
    cancel_rehearsal api
    pod ← rehearsal_pod api
    when (not (is_some pod)) (on_rehearsal (λ r. record r { armed = false }))

  -- The error of startRehearsal is recorded and returned.
  reported : Result (Unit {0}) → Exec (Unit {0})
  unfolding not_started ◌>>=◌
  reported (ok u) = skip
  reported (err e) = do not_started; raise e

  try_start : Exec (Unit {0})
  unfolding reported ◌>>=◌
  try_start = do r ← caught start_rehearsal; reported r

  abbrev is_cutting_over : Phase → Bool
  is_cutting_over cutting_over = true
  is_cutting_over _ = false

  abbrev is_streaming : Phase → Bool
  is_streaming streaming = true
  is_streaming cutover_pending = true
  is_streaming _ = false

  -- reconcileRehearsal
  unfoldable pub reconcile_rehearsal : Exec (Unit {0})
  unfolding disarm try_start not_started ◌>>=◌
  reconcile_rehearsal = do
    m ← gets (λ s. s.m)
    if not (rehearsal_requested m)
        then when (armed_in m.status.rehearsal) disarm
        else if is_cutting_over m.status.phase
        then cancel_rehearsal api
        else if armed_in m.status.rehearsal
        then observe_rehearsal
        else if not (is_streaming m.status.phase)
        then skip
        else if is_automatic m.spec.cutover.mode
        then not_started
        else try_start
