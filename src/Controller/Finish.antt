-- ===== src/Controller/Finish.antt =====
-- The finish paths of a worker that exited 0: finishClone (verification.go) and finishFollow
-- (follow.go), over the Jobs that prove their work.
pub mod Stages
pub mod Onward
pub mod Drained
use pgcopydb_operator.Prelude.{ℕ, Bool, true, false, ◌&&◌, Option, none, some, if◌then◌else◌, not}
use pgcopydb_operator.Migration.{Migration, Phase, cutting_over, finalizing, CloneProgress}
use pgcopydb_operator.Migration.Conditions.{
  ConditionType, clone_completed, cutover_complete, complete, Reason, base_copy_done,
  clone_succeeded, clone_incomplete, drain_incomplete, drain_verified, migration_succeeded,
  yes_true, no_false, ConditionApi,
}
use pgcopydb_operator.Platform.Types.{Next, after, finished, Api}
use pgcopydb_operator.Platform.Exec.{Pass, Exec, pure, gets, skip, status, ◌>>=◌, ◌>>◌, when}
use pgcopydb_operator.Controller.Jobs.{Finish, job_running, job_succeeded, job_has_failed}
use pgcopydb_operator.Controller.Status.{
  set_condition, holds, tables_empty_seen, set_phase, emit, current_time, update_status,
}
use pgcopydb_operator.Controller.Hold.{fail}
use pgcopydb_operator.Controller.Rehearsal.{cancel_rehearsal}
use pgcopydb_operator.Controller.Rehearsal.Drain.{drain_waits_for_rehearsal}
use pgcopydb_operator.Controller.Reown.{poll, reown_gate}
use pgcopydb_operator.Controller.Verification.{ensure_verification}
use Stages.{Catalog, catalog_running, tables_owed, nothing_owed, ensure_catalog_check}
use Stages.{ensure_verify, ensure_cleanup}

-- `if res, handled, err := …; handled { return res }`
abbrev pub answered : Option Next → Exec Next → Exec Next
answered none rest = rest
answered (some next) rest = pure next

module _ (k : ConditionApi) (api : Api) where
  -- `if err := r.updateStatus(...); ...; return RequeueAfter: pollInterval`
  unfoldable pub waiting : Exec Next
  unfolding ◌>>=◌
  waiting = do update_status api; pure poll

  -- `return ctrl.Result{}, r.updateStatus(ctx, m, base)`
  unfoldable pub done_with : Exec Next
  unfolding ◌>>=◌
  done_with = do update_status api; pure finished

  -- The end of both paths: Complete, and nothing more to do.
  unfoldable pub complete_now : Exec Next
  unfolding done_with ◌>>=◌
  complete_now = do
    now ← current_time api
    status (λ st. record st { completed_at = some now; phase = Phase.completed })
    set_condition k complete yes_true migration_succeeded
    emit false Reason.completed
    done_with

  unfoldable pub verify_then : Exec Next → Exec Next
  unfolding waiting ◌>>=◌
  verify_then next = do done ← ensure_verification k api; if done then next else waiting

  -- finishClone once the copy is known to be whole.
  clone_verified : Exec Next
  unfolding verify_then complete_now ◌>>=◌
  clone_verified = do
    set_condition k clone_completed yes_true clone_succeeded
    handled ← reown_gate k api finalizing
    answered handled (verify_then complete_now)

  after_catalog : Catalog → Exec Next
  unfolding waiting done_with clone_verified ◌>>=◌
  after_catalog catalog_running = waiting
  after_catalog nothing_owed = clone_verified
  after_catalog tables_owed = do
    set_condition k clone_completed no_false clone_incomplete
    fail k clone_incomplete
    done_with

  -- finishClone
  unfoldable pub finish_clone : Exec Next
  unfolding after_catalog clone_verified ◌>>=◌
  finish_clone = do
    unchecked ← gets (λ s.
        not (holds k s.m clone_completed)
        && (not s.m.spec.clone.all_databases && api.progress_gate))
    if not unchecked
        then clone_verified
        else do catalog ← ensure_catalog_check api; after_catalog catalog

  -- finishFollow behind the proven drain and the handover.
  unfoldable pub follow_verified : Exec Next
  unfolding waiting verify_then complete_now ◌>>=◌
  follow_verified = do
    set_condition k cutover_complete yes_true drain_verified
    cleaned ← ensure_cleanup api
    if cleaned then verify_then complete_now else waiting

  -- The verdict of the drain verify Job.
  unfoldable pub after_drain : Finish → Exec Next
  unfolding waiting done_with follow_verified ◌>>=◌
  after_drain job_running = waiting
  after_drain job_has_failed = do
    set_condition k cutover_complete no_false drain_incomplete
    fail k drain_incomplete
    done_with
  after_drain job_succeeded = do
    handled ← reown_gate k api cutting_over
    answered handled follow_verified

  -- finishFollow
  unfoldable pub finish_follow : Exec Next
  unfolding after_drain waiting ◌>>=◌
  finish_follow = do
    refused ← gets (λ s. tables_empty_seen k s.m)
    when (not refused) (set_condition k clone_completed yes_true base_copy_done)
    set_phase cutting_over
    cancel_rehearsal api
    wait ← drain_waits_for_rehearsal k api
    if wait then waiting else do drained ← ensure_verify api; after_drain drained
