-- ===== src/Tests/Passes.antt =====
-- The theorems on whole passes, applied to a Migration and its variants.
use pgcopydb_operator.Prelude.{◌≡◌, refl, ◌⊎◌, true, false, some, [], ◌∷◌, first}
use pgcopydb_operator.Migration.Name.{worker, gate}
use pgcopydb_operator.Migration.Conditions.{ConditionType, yes_true, Reason, Condition}
use pgcopydb_operator.Text.{same, has_prefix, cut, cut_prefix, is_space, trim_left}
use pgcopydb_operator.Text.Numbers.{parse_int64, parse_dec, scan_dec}
use pgcopydb_operator.Text.Scan.{scan_int, scan_space, scan_word, span_digits, span_word}
use pgcopydb_operator.Text.Lines.{split_lines}
use pgcopydb_operator.Controller.Probe.Log.{
  parse_gate_log, parse_census, read_gate_lines, gate_text, trim_returns, commit_read, commit_of,
}
use pgcopydb_operator.Tests.Probe.{cleared_log}
use pgcopydb_operator.Platform.Types.{ok, Job, job_complete, Api}
use pgcopydb_operator.Platform.Exec.{Pass, ◌>>=◌}
use pgcopydb_operator.Controller.Frame.{created, workers, freezes, SameCore}
use pgcopydb_operator.Controller.Onward.{recorded, frozen_at}
use pgcopydb_operator.Controller.Launch.{upcoming}
use pgcopydb_operator.Controller.Jobs.{job_finished, job_finished_at, job_failed_at}
use pgcopydb_operator.Controller.Hold.{attempt_phase}
use pgcopydb_operator.Controller.Budget.{verdict_overdue, copy_done_for_gate}
use pgcopydb_operator.Controller.Probe.{same_inputs, gate_inputs_for, passed}
use pgcopydb_operator.Controller.Rehearsal.{find_pod, rehearsal_pod}
use pgcopydb_operator.Controller.Gate.{retry_gate, gate_pods, blocking_pod, probe_job, judge_probe}
use pgcopydb_operator.Controller.Gate.Opening.{IsOpen}
use pgcopydb_operator.Controller.Gate.Cleared.{ClearedProbe, retry_gate-cleared}
use pgcopydb_operator.Controller.Gate.Safety.{retry_gate-opens}
use pgcopydb_operator.Controller.Reconcile.{status_is_empty, reconcile}
use pgcopydb_operator.Controller.Reconcile.Passes.{
  IsStartable, reconcile-one_worker, reconcile-keeps_endpos, reconcile-suspended,
  reconcile-terminal, reconcile-deletion,
}
use pgcopydb_operator.Tests.Conditions.{conditions, conditions-IsLawful, find}
use pgcopydb_operator.Tests.World.{api, migration, pass_over, start}

abbrev running : Pass
running = pass_over migration

abbrev paused : Pass
paused = pass_over (record migration { spec = record migration.spec { suspend = true } })

abbrev deleted : Pass
deleted = pass_over (record migration { deleting = true })

abbrev done_condition : Condition
done_condition = record {
  type = ConditionType.complete;
  status = yes_true;
  reason = Reason.migration_succeeded;
  observed_generation = 1;
  last_transition = 3;
}

abbrev finished_migration : Pass
finished_migration =
    pass_over
      (record migration { status = record migration.status { conditions = done_condition ∷ [] } })

reconcile-one_worker_example :
    (workers (reconcile conditions api running).1 ≡ workers running)
    ⊎ ((workers (reconcile conditions api running).1 ≡ worker (upcoming running) ∷ workers running)
        × IsStartable conditions running.m)
reconcile-one_worker_example = reconcile-one_worker conditions conditions-IsLawful api running

reconcile-keeps_endpos_example :
    (reconcile conditions api running).1.m.spec ≡ running.m.spec
    × ((recorded running ≡ false)
        ⊎ ((frozen_at (reconcile conditions api running).1 ≡ frozen_at running)
            × (freezes (reconcile conditions api running).1 ≡ freezes running)))
reconcile-keeps_endpos_example = reconcile-keeps_endpos conditions conditions-IsLawful api running

reconcile-suspended_example :
    created (reconcile conditions api paused).1 ≡ created paused
    × SameCore conditions paused.m (reconcile conditions api paused).1.m
unfolding find status_is_empty
reconcile-suspended_example =
    reconcile-suspended conditions conditions-IsLawful api paused refl refl refl refl

reconcile-terminal_example :
    created (reconcile conditions api finished_migration).1 ≡ created finished_migration
    × SameCore conditions finished_migration.m (reconcile conditions api finished_migration).1.m
unfolding find
reconcile-terminal_example =
    reconcile-terminal conditions conditions-IsLawful api finished_migration refl refl

reconcile-deletion_example :
    workers (reconcile conditions api deleted).1 ≡ workers deleted
    × SameCore conditions deleted.m (reconcile conditions api deleted).1.m
reconcile-deletion_example = reconcile-deletion conditions conditions-IsLawful api deleted refl

-- A probe Job that succeeded just now, with the inputs of the spec.
abbrev probe : Job
probe = record {
  name = gate 2;
  deleting = false;
  conditions = record { type = job_complete; is_true = true; last_transition = start } ∷ [];
  start_time = some start;
  completion_time = some start;
  inputs = some (record { commit_test = true; expect_local = true });
}

abbrev open_api : Api
open_api = record api { get_job = λ t u n. ok probe; gate_log = λ t n. cleared_log }

retry_gate-opens_example :
    SameCore conditions running.m (retry_gate conditions open_api 2 running).1.m
    × (gate_inputs_for conditions (retry_gate conditions open_api 2 running).1.m
        ≡ gate_inputs_for conditions running.m)
    × IsOpen conditions open_api 2 (retry_gate conditions open_api 2 running).1
unfolding parse_gate_log read_gate_lines split_lines gate_text cut_prefix trim_returns has_prefix
    same parse_census scan_space is_space trim_left scan_int parse_int64 span_digits scan_word
    span_word commit_read commit_of parse_dec scan_dec cut find retry_gate gate_pods blocking_pod
    find_pod rehearsal_pod probe_job judge_probe passed gate_inputs_for copy_done_for_gate
    attempt_phase same_inputs job_finished job_finished_at job_failed_at verdict_overdue first ◌>>=◌
retry_gate-opens_example = retry_gate-opens conditions conditions-IsLawful open_api 2 running refl

retry_gate-cleared_example :
    ClearedProbe conditions conditions-IsLawful open_api 2
      (gate_inputs_for conditions running.m)
      (retry_gate conditions open_api 2 running).1
unfolding parse_gate_log read_gate_lines split_lines gate_text cut_prefix trim_returns has_prefix
    same parse_census scan_space is_space trim_left scan_int parse_int64 span_digits scan_word
    span_word commit_read commit_of parse_dec scan_dec cut find retry_gate gate_pods blocking_pod
    find_pod rehearsal_pod probe_job judge_probe passed gate_inputs_for copy_done_for_gate
    attempt_phase same_inputs job_finished job_finished_at job_failed_at verdict_overdue first ◌>>=◌
retry_gate-cleared_example =
    retry_gate-cleared conditions conditions-IsLawful open_api 2 running refl
