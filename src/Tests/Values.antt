-- ===== src/Tests/Values.antt =====
-- The theorems on single operations, applied to concrete values.
use pgcopydb_operator.Prelude.{
  ◌≡◌, refl, ◌↔◌, ◌+◌, ◌-◌, ◌==◌, ◌&&◌, true, false, not, leb, is_some, none, some, [], ◌∷◌,
  if◌then◌else◌, arith,
}
use pgcopydb_operator.Migration.{
  Migration, lsn, no_lsn, rehearsal_run, drain_run, VerificationProgress, Outcome,
}
use pgcopydb_operator.Migration.Name.{worker, rehearsal, verify}
use pgcopydb_operator.Migration.Conditions.{commits_blocked}
use pgcopydb_operator.Platform.Types.{
  GateResult, GateInputs, GateCensus, commit_skipped, Sampled, SentinelState, Job, job_failed,
}
use pgcopydb_operator.Platform.Exec.{Pass}
use pgcopydb_operator.Platform.Exec.Keeps.{Keeps}
use pgcopydb_operator.Controller.Frame.{created}
use pgcopydb_operator.Controller.Onward.{Quiet}
use pgcopydb_operator.Controller.Status.{holds}
use pgcopydb_operator.Controller.Budget.{budget_spent}
use pgcopydb_operator.Controller.Budget.Bounds.{budget_spent-counts, budget_spent-wraps}
use pgcopydb_operator.Controller.Probe.{hold, passed}
use pgcopydb_operator.Controller.Probe.Verdict.{hold-passed}
use pgcopydb_operator.Controller.Compare.Items.{IsRecorded, replace_item-IsRecorded}
use pgcopydb_operator.Controller.Observe.{sync_rep_of, sync_rep_over, apply_commits_blocked}
use pgcopydb_operator.Controller.Observe.Latch.{apply_commits_blocked-holds}
use pgcopydb_operator.Controller.Rehearsal.Run.{reconcile_rehearsal}
use pgcopydb_operator.Controller.Rehearsal.Run.Once.{reconcile_rehearsal-armed}
use pgcopydb_operator.Controller.Attempt.{handle_failed_job}
use pgcopydb_operator.Controller.Attempt.Onward.{handle_failed_job-Quiet}
use pgcopydb_operator.Tests.Conditions.{conditions, conditions-IsLawful}
use pgcopydb_operator.Tests.World.{api, migration, pass_over, start}

-- The budget of the sample Migration: one attempt of a limit of three, and the same Migration with
-- the largest limit.
abbrev unlimited : Migration
unlimited = record migration { spec = record migration.spec { backoff_limit = 2147483647 } }

budget_spent-counts_example : budget_spent migration ≡ leb (3 + 1) (1 - 0)
budget_spent-counts_example =
    budget_spent-counts migration (omega arith) (omega arith) (omega arith)

budget_spent-wraps_example : budget_spent unlimited ≡ true
budget_spent-wraps_example = budget_spent-wraps unlimited (omega arith) (omega arith) refl

abbrev census : GateCensus
census = record { total = 2; sync_rep = 2; gate_waiting = 0; sync_rep_since = 1000; named = true }

abbrev skipped_log : GateResult
skipped_log = record {
  census = some (record census { total = 0 });
  sync_commit = some true;
  commit = commit_skipped;
  pass = false;
}

abbrev inputs : GateInputs
inputs = record { commit_test = true; expect_local = true }

hold-passed_example : hold skipped_log inputs ≡ none ↔ passed skipped_log inputs ≡ true
hold-passed_example = hold-passed skipped_log inputs

abbrev waiting_sample : Sampled
waiting_sample = record {
  sample = some (record {
    counts = none;
    copying = true;
    finalizing = false;
    copy_started = true;
    source_size = none;
    target_size = none;
    lost = λ side. none;
    sync_rep = some (record { waiting = 2; oldest_seconds = 45; pgcopydb_named = 0 });
  });
  at = start;
  copy_seen = true;
  sync_rep_confirmed = true;
}

apply_commits_blocked-holds_example :
    holds conditions
      (apply_commits_blocked conditions waiting_sample (pass_over migration)).1.m
      commits_blocked
    ≡ (if waiting_sample.at == 0
        then holds conditions migration commits_blocked
        else if not (is_some (sync_rep_of waiting_sample.sample))
        then holds conditions migration commits_blocked
        else if waiting_sample.sync_rep_confirmed
        then true
        else (sync_rep_over (sync_rep_of waiting_sample.sample)
            && holds conditions migration commits_blocked))
apply_commits_blocked-holds_example =
    apply_commits_blocked-holds conditions conditions-IsLawful waiting_sample (pass_over migration)

abbrev blank_sample : SentinelState
blank_sample = record {
  write_lsn = lsn 600;
  replay_lsn = lsn 580;
  endpos = no_lsn;
  source_head = lsn 700;
}

abbrev item : VerificationProgress
item = record {
  kind = drain_run;
  job_name = verify;
  observed_at = some start;
  final = true;
  counts = record {
    planned_tables = 4;
    compared_tables = 4;
    planned_bytes = 90;
    compared_bytes = 90;
    compared_rows = 12;
    differing_tables = 0;
    failed_tables = 0;
    elapsed = 8;
  };
}

-- The item's kind is the drain's; the list has one of the rehearsal's.
replace_item-IsRecorded_example :
    IsRecorded item (record item { kind = rehearsal_run } ∷ []) rehearsal_run
replace_item-IsRecorded_example =
    replace_item-IsRecorded item (record item { kind = rehearsal_run } ∷ []) rehearsal_run
      (omega arith)

abbrev rehearsing : Pass
rehearsing = pass_over (record migration {
  spec = record migration.spec {
    verification = some (record { schema = false; compare_data = true; rehearsal = true });
  };
  status = record migration.status {
    rehearsal = some (record {
      armed = true;
      run = 1;
      job_name = some (rehearsal 1);
      started_at = none;
      completed_at = none;
      outcome = Outcome.running;
    });
  };
})

reconcile_rehearsal-armed_example :
    created (reconcile_rehearsal api rehearsing).1 ≡ created rehearsing
reconcile_rehearsal-armed_example = reconcile_rehearsal-armed conditions api rehearsing refl

abbrev lost_worker : Job
lost_worker = record {
  name = worker 1;
  deleting = false;
  conditions = record { type = job_failed; is_true = true; last_transition = start } ∷ [];
  start_time = some start;
  completion_time = none;
  inputs = none;
}

handle_failed_job-Quiet_example : Keeps Quiet (handle_failed_job conditions api lost_worker)
handle_failed_job-Quiet_example =
    handle_failed_job-Quiet conditions conditions-IsLawful api lost_worker
