-- ===== src/Controller/WorkerLog.antt =====
-- What a pass reads from a worker's log with the classifiers of internal/pgcopydb/logs.go.
pub mod Cause
use pgcopydb_operator.Prelude.{Bool, not, Option, is_some}
use pgcopydb_operator.Migration.{Time}
use pgcopydb_operator.Platform.Types.{WorkerLog}
use pgcopydb_operator.Text.{Text}
use pgcopydb_operator.Pgcopydb.Logs.{
  LogEntry, is_empty, permission_denied_line, disk_full_line, schema_drift_line, snapshot_lost_line,
  clone_done, supervisor_death,
}

-- All classifiers on one log; a line of the source is "" where there is none.
unfoldable pub read_worker_log :
    (decode : Text → Option LogEntry) (parse_time : Text → Option Time) (tail : Text) → WorkerLog
read_worker_log decode parse_time tail = record {
  permission_denied = is_some (permission_denied_line decode tail);
  disk_full = is_some (disk_full_line decode tail);
  schema_drift = not (is_empty (schema_drift_line decode tail));
  snapshot_lost = is_some (snapshot_lost_line decode tail);
  clone_done = clone_done tail;
  supervisor_death = supervisor_death parse_time tail;
}
