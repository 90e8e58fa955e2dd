-- ===== src/Controller/Observe.antt =====
-- A pass over a running worker (migration_controller.go, syncrep.go): the sample, the base copy's
-- verdict, the follow step, the zombie.
pub mod Latch
pub mod Onward
use pgcopydb_operator.Prelude.{
  ℕ, ◌+◌, ◌-◌, ◌*◌, Bool, true, false, ◌&&◌, ◌||◌, Option, none, some, List, [], ◌∷◌, if◌then◌else◌,
  not, is_some, ltb, leb, ◌==◌,
}
use pgcopydb_operator.Prelude.Word.{lt64, le64}
use pgcopydb_operator.Migration.{
  Migration, Phase, cloning, finalizing, streaming, cutover_pending, cutting_over, Time, second,
  CloneProgress, follow_enabled,
}
use pgcopydb_operator.Migration.Name.{JobName}
use pgcopydb_operator.Migration.Conditions.{
  ConditionType, clone_completed, commits_blocked, Reason, copying_data, tables_empty_on_target,
  base_copy_done, sync_rep_wait, no_sync_rep_wait, sync_rep_unobserved, gate_passed, worker_zombie,
  yes_true, no_false, unknown, ConditionApi,
}
use pgcopydb_operator.Platform.Types.{
  Err, not_found, Result, ok, err, Job, Pod, WorkerLog, RelationCounts, Sample, SyncRepWait,
  Sampled, by_job, delete_pod, Next, after, Api,
}
use pgcopydb_operator.Platform.Exec.{
  Pass, Exec, pure, raise, lift, gets, ask, skip, say, status, ◌>>=◌, ◌>>◌, when, raise_some,
  caught, for_each,
}
use pgcopydb_operator.Controller.WorkerLog.{read_worker_log}
use pgcopydb_operator.Controller.Jobs.{unless_not_found}
use pgcopydb_operator.Controller.Status.{
  set_condition, holds, copy_seen, tables_empty_seen, set_phase, emit, current_time, update_status,
}
use pgcopydb_operator.Controller.Hold.{end_hold}
use pgcopydb_operator.Controller.Rehearsal.Run.{reconcile_rehearsal}
use pgcopydb_operator.Controller.Gate.{delete_stray_probes}
use pgcopydb_operator.Controller.Reown.{poll, poll_interval}
use pgcopydb_operator.Controller.Follow.{reconcile_follow_running}
use pgcopydb_operator.Controller.Attempt.{no_log}

-- zombieGrace
abbrev pub zombie_grace : Time
zombie_grace = 30 * second

-- syncRepOver; syncRepThreshold in whole seconds
abbrev pub sync_rep_over : Option SyncRepWait → Bool
sync_rep_over none = false
sync_rep_over (some w) = lt64 0 w.waiting && le64 30 w.oldest_seconds

-- syncRepWait
abbrev pub sync_rep_of : Option Sample → Option SyncRepWait
sync_rep_of none = none
sync_rep_of (some s) = s.sync_rep

abbrev counts_of : Option Sample → Option RelationCounts
counts_of none = none
counts_of (some s) = s.counts

abbrev or_counters : Option CloneProgress → CloneProgress
or_counters none = record {
  tables_total = 0;
  tables_done = 0;
  indexes_total = 0;
  indexes_done = 0;
  bytes_total = none;
  bytes_done = none;
  observed_at = none;
}
or_counters (some p) = p

-- Tables that hold rows on the source and none on the target.
abbrev owing : Option RelationCounts → Bool
owing none = false
owing (some c) = lt64 c.tables_done c.tables_total

module _ (k : ConditionApi) where
  -- applyCommitsBlocked
  unfoldable pub apply_commits_blocked : Sampled → Exec (Unit {0})
  unfolding ◌>>=◌
  apply_commits_blocked got = do
    blocked ← gets (λ s. holds k s.m commits_blocked)
    if got.at == 0
        then skip
        else if not (is_some (sync_rep_of got.sample))
        then when (not blocked) (set_condition k commits_blocked unknown sync_rep_unobserved)
        else if got.sync_rep_confirmed
        then (do
          when (not blocked) (emit true Reason.commits_blocked)
          set_condition k commits_blocked yes_true sync_rep_wait)
        else when (not (sync_rep_over (sync_rep_of got.sample)))
            (set_condition k commits_blocked no_false no_sync_rep_wait)

  -- applyStage
  unfoldable pub apply_stage : Sample → Bool → Exec (Unit {0})
  unfolding ◌>>=◌
  apply_stage s started = do
    owed ←
        gets
          (λ x. k.is_false x.m.status.conditions clone_completed && not (tables_empty_seen k x.m))
    when (started && owed) (set_condition k clone_completed no_false copying_data)
    seen ← gets (λ x. copy_seen k x.m)
    if s.copying then set_phase cloning else when (s.finalizing && seen) (set_phase finalizing)

  -- applyCounts
  unfoldable pub apply_counts : Option RelationCounts → Time → Exec (Unit {0})
  apply_counts none at = skip
  apply_counts (some c) at = status (λ st. record st {
    progress = some (record (or_counters st.progress) {
      tables_total = c.tables_total;
      tables_done = c.tables_done;
      indexes_total = c.indexes_total;
      indexes_done = c.indexes_done;
      bytes_total = some c.bytes_total;
      bytes_done = some c.bytes_done;
      observed_at = some at;
    });
  })

  -- confirmBaseCopy
  unfoldable pub confirm_base_copy : Option RelationCounts → Exec Bool
  unfolding ◌>>=◌
  confirm_base_copy counts = do
    refused ← gets (λ s. tables_empty_seen k s.m)
    if owing counts
        then (do
          when (not refused) (emit true tables_empty_on_target)
          set_condition k clone_completed no_false tables_empty_on_target
          pure false)
        else if not (is_some counts) && refused
        then pure false
        else (do set_condition k clone_completed yes_true base_copy_done; pure true)

module _ (api : Api) where
  -- The body of deleteJobPods' loop.
  delete_live_pod : Pod → Exec (Unit {0})
  unfolding ◌>>=◌
  delete_live_pod p = do
    failed ← ask (λ t. api.delete_pod_error t p)
    when (not p.deleting) (do say (delete_pod p); raise_some (unless_not_found failed))

  -- deleteJobPods
  unfoldable pub delete_job_pods : JobName → Exec (Unit {0})
  unfolding delete_live_pod ◌>>=◌
  delete_job_pods name = do
    got ← ask (λ t. api.list_pods t (by_job name))
    pods ← lift got
    for_each delete_live_pod pods

  zombie : Job → Option Time → Exec (Option Next)
  unfolding ◌>>=◌
  zombie job none = pure none
  zombie job (some died) = do
    now ← current_time api
    if ltb now (died + zombie_grace)
        then pure (some poll)
        else do delete_job_pods job.name; emit true worker_zombie; pure (some poll)

  -- reapZombieWorker; `log` is what the pass read, nothing for a plain clone.
  unfoldable pub reap_zombie_worker : Job → WorkerLog → Exec (Option Next)
  unfolding zombie ◌>>=◌
  reap_zombie_worker job log = do
    follow ← gets (λ s. follow_enabled s.m)
    if not follow then pure none else zombie job log.supervisor_death

  -- activePollDelay, a nanosecond where the pass took longer than the interval
  abbrev active_poll_delay : Time → Time → Time
  active_poll_delay start now =
      if ltb (now - start) poll_interval then poll_interval - (now - start) else 1

module _ (k : ConditionApi) (api : Api) where
  reaped : Time → Option Next → Exec Next
  unfolding ◌>>=◌
  reaped start (some next) = pure next
  reaped start none = do
    delete_stray_probes k api
    now ← current_time api
    pure (after (active_poll_delay api start now))

  -- The sample applied to the status.
  apply_sample : Sampled → Option Sample → Exec (Unit {0})
  unfolding ◌>>=◌
  apply_sample got none = skip
  apply_sample got (some s) = do apply_stage k s got.copy_seen; apply_counts k s.counts got.at

  follow_step : Bool → Exec (Unit {0})
  unfolding ◌>>=◌
  follow_step clone_done = do
    reconcile_follow_running k api clone_done
    caught (reconcile_rehearsal api)
    skip

  -- observeRunningJob
  unfoldable pub observe_running_job : Job → Time → Exec Next
  unfolding reaped apply_sample follow_step ◌>>=◌
  observe_running_job job start = do
    follow ← gets (λ s. follow_enabled s.m)
    failed ← ask (λ t. is_some (api.log_error t job.name))
    tail ← ask (λ t. read_worker_log api.decode api.parse_time (api.stamped_log t job.name))
    let log = if follow && api.has_logs && not failed then tail else no_log
    known ← gets (λ s. holds k s.m clone_completed)
    refused ← gets (λ s. tables_empty_seen k s.m)
    let judge = follow && not known && (log.clone_done || refused)
    got ← ask (λ t. api.progress_sample t judge)
    apply_commits_blocked k got
    apply_sample got got.sample
    clone_done ← if judge then confirm_base_copy k (counts_of got.sample) else pure known
    when follow (follow_step clone_done)
    end_hold k gate_passed
    update_status api
    handled ← reap_zombie_worker api job log
    reaped start handled
