-- ===== src/Controller/Reown.antt =====
-- The ownership handover (reown.go), which runs before a migration is published as done.
pub mod Calm
use pgcopydb_operator.Prelude.{
  ℕ, ◌*◌, Bool, true, false, Option, none, some, List, if◌then◌else◌, not,
}
use pgcopydb_operator.Migration.{Migration, Phase, Time, second}
use pgcopydb_operator.Migration.Name.{reown}
use pgcopydb_operator.Migration.Conditions.{
  ConditionType, ownership_applied, Reason, ownership_started, ownership_running, ownership_done,
  ownership_failed, yes_true, no_false, unknown, ConditionApi,
}
use pgcopydb_operator.Platform.Types.{
  Err, not_found, Result, ok, err, Job, Next, after, finished, Api,
}
use pgcopydb_operator.Platform.Exec.{Pass, Exec, pure, raise, gets, ask, skip, ◌>>=◌, ◌>>◌, when}
use pgcopydb_operator.Controller.Jobs.{
  Finish, job_running, job_succeeded, job_has_failed, job_finished, ensure_job, get_job,
}
use pgcopydb_operator.Controller.Status.{set_condition, holds, set_phase, emit, update_status}
use pgcopydb_operator.Controller.Hold.{fail}

-- pollInterval
abbrev pub poll_interval : Time
poll_interval = 10 * second

abbrev pub poll : Next
poll = after poll_interval

-- reownRequested
abbrev pub reown_requested : Migration → Bool
reown_requested m = m.spec.clone.owner_after_restore

abbrev pub finish_of : Option Job → Finish
finish_of none = job_running
finish_of (some job) = job_finished job.conditions

module _ (k : ConditionApi) (api : Api) where
  -- The switch of ensureReown on the handover Job.
  reown_result : Finish → Exec Finish
  unfolding ◌>>=◌
  reown_result job_running = do
    set_condition k ownership_applied unknown ownership_running
    pure job_running
  reown_result job_succeeded = do
    applied ← gets (λ s. holds k s.m ownership_applied)
    when (not applied) (emit false ownership_done)
    set_condition k ownership_applied yes_true ownership_done
    pure job_succeeded
  reown_result job_has_failed = pure job_has_failed

  -- ensureReown: running, done, or failed with a message
  unfoldable pub ensure_reown : Exec Finish
  unfolding reown_result ◌>>=◌
  ensure_reown = do
    got ← ensure_job api reown
    when (got.1) (emit false ownership_started)
    reown_result (finish_of (got.0))

  reown_gated : Phase → Finish → Exec (Option Next)
  unfolding ◌>>=◌
  reown_gated running job_succeeded = pure none
  reown_gated running job_has_failed = do
    set_condition k ownership_applied no_false ownership_failed
    fail k ownership_failed
    update_status api
    pure (some finished)
  reown_gated running job_running = do set_phase running; update_status api; pure (some poll)

  -- reownGate: an answer ends the pass.
  unfoldable pub reown_gate : Phase → Exec (Option Next)
  unfolding reown_gated ◌>>=◌
  reown_gate running = do
    wanted ← gets (λ s. reown_requested s.m)
    if not wanted then pure none else do result ← ensure_reown; reown_gated running result

  -- reownJobExists
  exists_result : Result Job → Exec Bool
  exists_result (ok job) = pure true
  exists_result (err not_found) = pure false
  exists_result (err e) = raise e

  unfoldable pub reown_job_exists : Exec Bool
  unfolding exists_result ◌>>=◌
  reown_job_exists = do
    wanted ← gets (λ s. reown_requested s.m)
    if not wanted then pure false else do got ← get_job api reown; exists_result got
