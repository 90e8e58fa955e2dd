-- ===== src/Controller/Rehearsal.antt =====
-- The verification rehearsal (rehearsal.go): a compare data run beside a streaming migration.
pub mod Calm
pub mod Run
pub mod Drain
use pgcopydb_operator.Prelude.{
  ℕ, ◌+◌, Bool, true, false, ◌&&◌, ◌||◌, Option, none, some, List, [], ◌∷◌, if◌then◌else◌, not,
  is_some, first, ◌==◌,
}
use pgcopydb_operator.Prelude.Word.{add32}
use pgcopydb_operator.Migration.{
  Migration, Phase, streaming, cutover_pending, cutting_over, Time, RehearsalStatus, Outcome,
  not_run, is_running, is_automatic, VerificationOptions, rehearsal_run,
}
use pgcopydb_operator.Migration.Name.{JobName, rehearsal, is_rehearsal_name, same_name}
use pgcopydb_operator.Migration.Conditions.{
  ConditionType, cutover_complete, Reason, rehearsal_pod_remains, same_reason, Verdict,
  verdict_true, unknown, Condition, ConditionApi,
}
use pgcopydb_operator.Platform.Types.{
  Err, not_found, Result, ok, err, Job, Pod, PodPhase, pod_succeeded, pod_failed, Selector, by_job,
  by_migration, foreground, Api,
}
use pgcopydb_operator.Platform.Exec.{
  Pass, Exec, pure, raise, lift, gets, ask, skip, status, ◌>>=◌, ◌>>◌, when, modify, caught,
  for_each,
}
use pgcopydb_operator.Controller.Jobs.{
  job_finished, job_finished_at, Finish, job_running, job_succeeded, job_has_failed, is_done,
  get_job, get_job_uncached, delete_job_ok, ensure_job,
}
use pgcopydb_operator.Controller.Status.{set_condition, emit, current_time}
use pgcopydb_operator.Controller.Compare.{read_compare_progress, drop_compare_progress}

abbrev wants_rehearsal : Option VerificationOptions → Bool
wants_rehearsal none = false
wants_rehearsal (some v) = v.rehearsal

-- rehearsalRequested
abbrev pub rehearsal_requested : Migration → Bool
rehearsal_requested m = wants_rehearsal m.spec.verification

abbrev pub armed_in : Option RehearsalStatus → Bool
armed_in none = false
armed_in (some st) = st.armed

abbrev pub running_in : Option RehearsalStatus → Bool
running_in none = false
running_in (some st) = is_running st.outcome

abbrev ended : PodPhase → Bool
ended pod_succeeded = true
ended pod_failed = true
ended _ = false

-- A pod that has not ended; the loop of previousWorkerPod.
abbrev pub live_pod : Pod → Bool
live_pod p = not (ended p.phase)

abbrev rehearsal_label : Option JobName → Bool
rehearsal_label none = false
rehearsal_label (some n) = is_rehearsal_name n

abbrev pub live_rehearsal_pod : Pod → Bool
live_rehearsal_pod p = rehearsal_label p.job && live_pod p

-- statusTime
abbrev pub status_time : Time → Option Time
status_time t = if t == 0 then none else some t

-- The rehearsal's status where it is recorded.
abbrev pub mapped :
    (RehearsalStatus → RehearsalStatus) → Option RehearsalStatus → Option RehearsalStatus
mapped f none = none
mapped f (some r) = some (f r)

abbrev pub on_rehearsal : (RehearsalStatus → RehearsalStatus) → Exec (Unit {0})
on_rehearsal f = status (λ st. record st { rehearsal = mapped f st.rehearsal })

abbrev blank : RehearsalStatus
blank = record {
  armed = false;
  run = 0;
  job_name = none;
  started_at = none;
  completed_at = none;
  outcome = not_run;
}

abbrev pub or_blank : Option RehearsalStatus → RehearsalStatus
or_blank none = blank
or_blank (some r) = r

abbrev pub next_run : Option RehearsalStatus → ℕ
next_run none = 1
next_run (some r) = add32 r.run 1

-- recordRehearsal
abbrev record_finish : Job → Finish → RehearsalStatus → RehearsalStatus
record_finish job job_running r = record r { started_at = job.start_time }
record_finish job job_succeeded r = record r {
  started_at = job.start_time;
  completed_at = status_time (job_finished_at job);
  outcome = Outcome.completed;
}
record_finish job job_has_failed r = record r {
  started_at = job.start_time;
  completed_at = status_time (job_finished_at job);
  outcome = Outcome.failed;
}

pub record_rehearsal : Job → Exec (Unit {0})
record_rehearsal job = on_rehearsal (record_finish job (job_finished job.conditions))

module _ (api : Api) where
  -- previousWorkerPod's and rehearsalPod's List, and the first pod that counts.
  unfoldable pub find_pod : Selector → (Pod → Bool) → Exec (Option Pod)
  unfolding ◌>>=◌
  find_pod selector counts = do
    got ← ask (λ t. api.list_pods t selector)
    pods ← lift got
    pure (first counts pods)

  -- rehearsalPod
  unfoldable pub rehearsal_pod : Exec (Option Pod)
  unfolding find_pod
  rehearsal_pod = find_pod by_migration live_rehearsal_pod

  -- rehearsalJob: no Job once the API server, not only the cache, has none.
  uncached_job : JobName → Result Job → Exec (Result Job)
  uncached_job name (err not_found) = get_job_uncached api name
  uncached_job name r = pure r

  job_or_none : Result Job → Exec (Option Job)
  job_or_none (ok job) = pure (some job)
  job_or_none (err not_found) = pure none
  job_or_none (err e) = raise e

  unfoldable pub rehearsal_job : JobName → Exec (Option Job)
  unfolding uncached_job job_or_none ◌>>=◌
  rehearsal_job name = do got ← get_job api name; again ← uncached_job name got; job_or_none again

  -- The end of cancelRecordedRehearsal: Canceled now.
  canceled_now : Exec (Unit {0})
  unfolding ◌>>=◌
  canceled_now = do
    now ← current_time api
    on_rehearsal (λ r. record r { outcome = Outcome.canceled; completed_at = status_time now })

  -- A recorded run's Job: finished first, still there, or gone.
  cancel_job : Option Job → Exec (Unit {0})
  unfolding canceled_now ◌>>=◌
  cancel_job none = canceled_now
  cancel_job (some job) =
      if is_done (job_finished job.conditions)
      then (do caught (read_compare_progress api rehearsal_run job); record_rehearsal job)
      else do
        when (not job.deleting) (delete_job_ok api job.name foreground)
        on_rehearsal (λ r. record r { started_at = job.start_time })
        canceled_now

  -- The Job that the status records; a run always records its name.
  pub recorded_job : Option JobName → Exec (Option Job)
  recorded_job none = pure none
  recorded_job (some name) = rehearsal_job name

  -- cancelRecordedRehearsal
  unfoldable pub cancel_recorded : Exec (Unit {0})
  unfolding cancel_job recorded_job ◌>>=◌
  cancel_recorded = do
    st ← gets (λ s. s.m.status.rehearsal)
    if not (running_in st)
        then skip
        else do job ← recorded_job (or_blank st).job_name; cancel_job job

  -- The body of cancelRehearsal's loop.
  is_stray : Job → Bool
  is_stray job =
      not (is_done (job_finished job.conditions)) && not job.deleting && is_rehearsal_name job.name

  unfoldable pub delete_stray : Job → Exec (Unit {0})
  unfolding is_stray
  delete_stray job = when (is_stray job) (delete_job_ok api job.name foreground)

  -- cancelRehearsal
  unfoldable pub cancel_rehearsal : Exec (Unit {0})
  unfolding cancel_recorded delete_stray ◌>>=◌
  cancel_rehearsal = do
    cancel_recorded
    got ← ask api.list_jobs
    jobs ← lift got
    for_each delete_stray jobs
