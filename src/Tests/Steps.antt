-- ===== src/Tests/Steps.antt =====
-- The theorems on the steps of a live migration, applied in a world where every Job has succeeded.
use pgcopydb_operator.Prelude.{suc, ◌≡◌, refl, ◌⊎◌, true, false, none, some, [], ◌∷◌, first}
use pgcopydb_operator.Migration.{Migration, no_lsn, lsn, automatic}
use pgcopydb_operator.Migration.Conditions.{
  cutover_complete, caught_up, no_false, confirming_catch_up,
}
use pgcopydb_operator.Platform.Types.{ok, job_complete, Api}
use pgcopydb_operator.Platform.Exec.{Pass, for_each, ◌>>=◌}
use pgcopydb_operator.Controller.Frame.{workers}
use pgcopydb_operator.Controller.Jobs.{job_finished, ensure_job, ensure_found}
use pgcopydb_operator.Controller.Status.{
  set_condition, holds, update_status, patch, observe_generation, patch_status_locked, rebase,
}
use pgcopydb_operator.Controller.Budget.{budget_spent, settle_budget}
use pgcopydb_operator.Controller.Budget.Settled.{IsSettled, settle_budget-IsSettled}
use pgcopydb_operator.Controller.Rehearsal.{
  cancel_rehearsal, cancel_recorded, rehearsal_pod, find_pod,
}
use pgcopydb_operator.Controller.Rehearsal.Drain.{drain_waits_for_rehearsal, hold_drain}
use pgcopydb_operator.Controller.Reown.{reown_gate}
use pgcopydb_operator.Controller.Verification.{ensure_verification, verify_checks}
use pgcopydb_operator.Controller.Finish.Stages.{
  ensure_verify, verify_job, verify_reads, ensure_cleanup, cleanup_answer, cleanup_done,
}
use pgcopydb_operator.Controller.Finish.{
  finish_follow, after_drain, follow_verified, verify_then, complete_now, done_with,
}
use pgcopydb_operator.Controller.Finish.Drained.{finish_follow-drained}
use pgcopydb_operator.Controller.Follow.{reconcile_follow_running, merge_replication}
use pgcopydb_operator.Sentinel.{to_status}
use pgcopydb_operator.Controller.Frame.{freezes}
use pgcopydb_operator.Controller.Follow.Freeze.{IsFreezing, reconcile_follow_running-freezes}
use pgcopydb_operator.Controller.Attempt.{start_attempt}
use pgcopydb_operator.Controller.Attempt.Spent.{start_attempt-spent}
use pgcopydb_operator.Tests.Conditions.{conditions, conditions-IsLawful, find, place}
use pgcopydb_operator.Tests.World.{api, migration, pass_over, replication, start}

-- Every Job is there and has succeeded; no log is read.
abbrev done_api : Api
done_api = record api {
  has_logs = false;
  get_job = λ t u n. ok (record {
    name = n;
    deleting = false;
    conditions = record { type = job_complete; is_true = true; last_transition = start } ∷ [];
    start_time = some start;
    completion_time = some start;
    inputs = none;
  });
}

finish_follow-drained_example :
    holds conditions (finish_follow conditions done_api (pass_over migration)).1.m cutover_complete
    ≡ true
unfolding find place finish_follow after_drain follow_verified verify_then complete_now done_with
    cancel_rehearsal cancel_recorded drain_waits_for_rehearsal hold_drain rehearsal_pod find_pod
    first ensure_verify verify_job verify_reads ensure_job ensure_found ensure_cleanup
    cleanup_answer cleanup_done reown_gate ensure_verification verify_checks for_each update_status
    patch observe_generation set_condition job_finished ◌>>=◌
finish_follow-drained_example =
    finish_follow-drained conditions conditions-IsLawful done_api (pass_over migration) refl refl

-- A follow migration that caught up at the pass before, with no endpos yet.
abbrev due : Pass
due = pass_over (record migration {
  spec = record migration.spec {
    cutover = record migration.spec.cutover { mode = automatic; approved = false };
  };
  status = record migration.status {
    replication = some (record replication { endpos = no_lsn });
    conditions =
        record {
          type = caught_up;
          status = no_false;
          reason = confirming_catch_up;
          observed_generation = 1;
          last_transition = start;
        }
        ∷ [];
  };
})

-- The next sample is 100 bytes behind.
abbrev due_api : Api
due_api = record api {
  sentinel_read = λ t.
      ok (some (record { write_lsn = lsn 1100; replay_lsn = lsn 1000; source_head = lsn 1100 }));
  set_endpos_reply = λ t. ok (lsn 1100);
}

due-freezes : freezes (reconcile_follow_running conditions due_api true due).1 ≡ 1
unfolding reconcile_follow_running set_condition merge_replication to_status find place
due-freezes = refl

reconcile_follow_running-freezes_example :
    (freezes (reconcile_follow_running conditions due_api true due).1 ≡ freezes due)
    ⊎ ((freezes (reconcile_follow_running conditions due_api true due).1 ≡ suc (freezes due))
        × IsFreezing conditions conditions-IsLawful due_api true due)
reconcile_follow_running-freezes_example =
    reconcile_follow_running-freezes conditions conditions-IsLawful due_api true due

-- One attempt made, and no retry allowed.
abbrev exhausted : Migration
exhausted = record migration { spec = record migration.spec { backoff_limit = 0 } }

start_attempt-spent_example :
    workers (start_attempt conditions api (pass_over exhausted)).1 ≡ workers (pass_over exhausted)
unfolding budget_spent
start_attempt-spent_example =
    start_attempt-spent conditions conditions-IsLawful api (pass_over exhausted) refl

settle_budget-IsSettled_example :
    IsSettled conditions conditions-IsLawful api
      (pass_over migration)
      (settle_budget conditions api (pass_over migration)).1
      false
unfolding settle_budget budget_spent patch_status_locked patch observe_generation rebase ◌>>=◌
settle_budget-IsSettled_example =
    settle_budget-IsSettled conditions conditions-IsLawful api (pass_over migration) false refl
