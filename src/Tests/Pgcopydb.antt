-- ===== src/Tests/Pgcopydb.antt =====
-- The theorems on what pgcopydb is given and what its logs say, applied to concrete values.
use mathlib.Core.List.Perm
use pgcopydb_operator.Prelude.{
  ℕ, zero, suc, ◌≤◌, ◌≡◌, ◌≢◌, ◌↔◌, ◌⊎◌, inl, refl, sym, subst, arith, true, false, not, ◌==◌, ◌&&◌,
  [], ◌∷◌, ◌++◌, Option, none, some, is_some, length, last, first,
}
use pgcopydb_operator.Text.{Text, codes, same, trim_space, is_space, has_prefix, cut, contains}
use pgcopydb_operator.Text.Lines.{lines}
use pgcopydb_operator.Migration.Conditions.{Reason}
use pgcopydb_operator.Controller.Attempt.{Cause, failure_cause}
use pgcopydb_operator.Controller.WorkerLog.{read_worker_log}
use pgcopydb_operator.Controller.WorkerLog.Cause.{Justified, failure_cause-Justified}
use pgcopydb_operator.Pgcopydb.Logs.{
  LogEntry, is_error_severity, is_empty, recent_log_lines, recent_severe_messages,
  permission_denied_line, disk_full_line, snapshot_lost_line, schema_drift_line, last_error_line,
  severe_of, severe_message, parse_log_line, recent_from, drift_in, drift_part,
  pg_restore_error_line, recent_severe_line,
}
use pgcopydb_operator.Pgcopydb.Logs.Window.{kept_lines, recent_log_lines-last, causes-tail}
use pgcopydb_operator.Pgcopydb.Logs.Cause.{Relays, IsActionable, last_error_line-IsActionable}
use pgcopydb_operator.Pgcopydb.Logs.Cause.Drift.{Drifts, schema_drift_line-Drifts}
use pgcopydb_operator.Pgcopydb.Args.{clone_args, effective_runner_requests}
use pgcopydb_operator.Pgcopydb.Args.Order.{clone_args-Perm}
use pgcopydb_operator.Pgcopydb.Args.Flags.{has, PlainNames}
use pgcopydb_operator.Pgcopydb.Slot.{slot_name}
use pgcopydb_operator.Pgcopydb.Slot.Shape.{AllSlotChars, slot_name-IsValid}
use pgcopydb_operator.Controller.Status.{snapshot_lost_seen}
use pgcopydb_operator.Controller.Builder.{WorkerJob, refuses, worker_args, worker_setup, build_job}
use pgcopydb_operator.Controller.Builder.Restart.{build_job-restart}
use pgcopydb_operator.Tests.Conditions.{conditions}
use pgcopydb_operator.Tests.World.{spec, migration}

-- A decoder that reads no line as JSON.
abbrev no_json : Text → Option LogEntry
no_json line = none

-- Forty lines that say that all is well.
abbrev calm_lines : ℕ → Text
calm_lines zero = []
calm_lines (suc n) = b'o' ∷ b'k' ∷ 10 ∷ calm_lines n

abbrev old_denial : Text
old_denial = codes "ERROR: permission denied for table t"

calm_length : length (kept_lines (lines (calm_lines 40))) ≡ 40
unfolding kept_lines lines trim_space is_space
calm_length = refl

calm_enough : 40 ≤ length (kept_lines (lines (calm_lines 40)))
calm_enough = subst (λ n. 40 ≤ n) (sym calm_length) (omega arith)

recent_log_lines-last_example :
    recent_log_lines (old_denial ++ 10 ∷ calm_lines 40)
    ≡ last 40 (kept_lines (lines (old_denial ++ 10 ∷ calm_lines 40)))
recent_log_lines-last_example = recent_log_lines-last (old_denial ++ 10 ∷ calm_lines 40)

causes-tail_example :
    (permission_denied_line no_json (old_denial ++ 10 ∷ calm_lines 40)
      ≡ permission_denied_line no_json (calm_lines 40))
    × (disk_full_line no_json (old_denial ++ 10 ∷ calm_lines 40)
        ≡ disk_full_line no_json (calm_lines 40))
    × (snapshot_lost_line no_json (old_denial ++ 10 ∷ calm_lines 40)
        ≡ snapshot_lost_line no_json (calm_lines 40))
    × (schema_drift_line no_json (old_denial ++ 10 ∷ calm_lines 40)
        ≡ schema_drift_line no_json (calm_lines 40))
causes-tail_example = causes-tail no_json old_denial (calm_lines 40) calm_enough

failure_cause-Justified_example :
    Justified no_json
      (recent_severe_messages no_json old_denial)
      (schema_drift_line no_json old_denial)
      true
      (failure_cause (read_worker_log no_json (λ stamp. none) old_denial) true)
failure_cause-Justified_example = failure_cause-Justified no_json (λ stamp. none) old_denial true

-- A denied log is no cause for another start, even with dropIfExists.
denied_terminal :
    failure_cause (read_worker_log no_json (λ stamp. none) old_denial) true
    ≡ Cause.terminal Reason.permission_denied
unfolding failure_cause read_worker_log permission_denied_line recent_severe_line first
    recent_severe_messages severe_of recent_log_lines recent_from lines trim_space severe_message
    parse_log_line has_prefix contains
denied_terminal = refl

-- A decoder that reads the text behind a brace as the message of an error.
abbrev all_errors : Text → Option LogEntry
all_errors [] = none
all_errors (c ∷ line) = some (record { severity = codes "ERROR"; message = line })

-- The column that the target lacks, and the sync of its connection.
abbrev drift_log : Text
drift_log =
    codes "{[TARGET 12] [42703] ERROR: column x does not exist"
    ++ 10 ∷ codes "{[TARGET 12] Context: Failed to receive pipeline sync"

filled : (s : Text) → is_empty s ≡ false → s ≢ []
filled [] e h = cc
filled (c ∷ s) e h = cc

drift_filled : is_empty (schema_drift_line all_errors drift_log) ≡ false
unfolding schema_drift_line recent_severe_messages severe_of severe_message parse_log_line
    recent_log_lines recent_from lines trim_space drift_in drift_part cut has_prefix contains same
    is_error_severity
drift_filled = refl

drift_found : schema_drift_line all_errors drift_log ≢ []
drift_found = filled (schema_drift_line all_errors drift_log) drift_filled

schema_drift_line-Drifts_example :
    Drifts all_errors
      (schema_drift_line all_errors drift_log)
      (recent_severe_messages all_errors drift_log)
schema_drift_line-Drifts_example = schema_drift_line-Drifts all_errors drift_log drift_found

abbrev restore_log : Text
restore_log =
    codes "{pg_restore: error: could not execute query: ERROR: no such role"
    ++ 10 ∷ codes "{Failed to run pg_restore: exit code 1"

restore_relayed : Relays all_errors (recent_log_lines restore_log)
unfolding recent_log_lines recent_from lines trim_space pg_restore_error_line parse_log_line
    has_prefix contains
restore_relayed = inl refl

last_error_line-IsActionable_example :
    IsActionable all_errors (last_error_line all_errors restore_log)
last_error_line-IsActionable_example =
    last_error_line-IsActionable all_errors restore_log restore_relayed

clone_args-Perm_example :
    clone_args spec true false false
    ≡ clone_args
        (record spec { clone = record spec.clone { skip = codes "analyze" ∷ codes "vacuum" ∷ [] } })
        true
        false
        false
clone_args-Perm_example =
    clone_args-Perm spec (codes "analyze" ∷ codes "vacuum" ∷ []) true false false
      (Perm.swap (codes "analyze") (codes "vacuum") [])

slot_name-IsValid_example :
    (length (slot_name (codes "prod") (codes "Orders-2")) ≤ 63)
    × AllSlotChars (slot_name (codes "prod") (codes "Orders-2"))
slot_name-IsValid_example = slot_name-IsValid (codes "prod") (codes "Orders-2")

abbrev second_job : WorkerJob
second_job = record {
  args = worker_args conditions migration 2;
  setup = worker_setup conditions migration 2;
  cpu = some 6500;
  memory = some 4294967296;
  apply_group_txns = none;
}

second_job_lem : build_job conditions migration 2 ≡ some second_job
unfolding build_job refuses effective_runner_requests
second_job_lem = refl

plain_names : PlainNames migration.spec.follow
unfolding same
plain_names = (refl, refl, refl)

build_job-restart_example :
    ((has (codes "--restart") second_job.args ≡ true) ↔ (
      (◌≡◌ {A = ℕ} 2 1)
      ⊎ ((snapshot_lost_seen conditions migration ≡ true)
          × (migration.spec.clone.drop_if_exists ≡ true))))
    × (has (codes "--resume") second_job.args ≡ not (has (codes "--restart") second_job.args))
    × (has (codes "--not-consistent") second_job.args
        ≡ not (has (codes "--restart") second_job.args))
    × (is_some second_job.setup.cleanup
        ≡ (has (codes "--restart") second_job.args && not (◌==◌ 2 1)))
build_job-restart_example =
    build_job-restart conditions migration 2 second_job (omega arith) (omega arith) plain_names
      second_job_lem
