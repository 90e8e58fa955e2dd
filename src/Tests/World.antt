-- ===== src/Tests/World.antt =====
-- A concrete API server that knows no Job, takes every call and has no pods; a database of which
-- nothing is known; and a Migration in it.
use pgcopydb_operator.Text.{codes}
use pgcopydb_operator.Prelude.{◌*◌, true, false, none, some, [], ◌∷◌}
use pgcopydb_operator.Migration.{
  Migration, MigrationSpec, MigrationStatus, Phase, manual, ReplicationStatus, lsn, second, Time,
}
use pgcopydb_operator.Platform.Types.{not_found, ok, err, Api}
use pgcopydb_operator.Platform.Exec.{Pass}

abbrev pub start : Time
start = 1000000 * second

abbrev pub api : Api
api = record {
  now = λ t. start;
  get_job = λ t u n. err not_found;
  create_job_error = λ t n. none;
  create_owned_error = λ t. none;
  delete_job_error = λ t n. none;
  delete_pod_error = λ t p. none;
  patch_error = λ t. none;
  list_pods = λ t s. ok [];
  pod_wait_detail = λ t n. false;
  list_jobs = λ t. ok [];
  build_error = λ m n. none;
  has_logs = true;
  has_sentinel = true;
  log_error = λ t n. none;
  worker_log = λ t n. [];
  stamped_log = λ t n. [];
  decode = λ line. none;
  parse_time = λ stamp. none;
  gate_log = λ t n. [];
  compare_log = λ t n. [];
  unmarshal = λ raw. none;
  catalog_progress = λ t n. none;
  sentinel_read = λ t. ok none;
  set_endpos_reply = λ t. ok (lsn 500);
  progress_sample =
      λ t b. record { sample = none; at = 0; copy_seen = false; sync_rep_confirmed = false };
  progress_gate = true;
}

abbrev pub spec : MigrationSpec
spec = record {
  synchronous_commit_local = true;
  runner = record { cpu = some 6500; memory = none };
  clone = record {
    all_databases = false;
    table_jobs = 0;
    index_jobs = 2;
    restore_jobs = 0;
    large_objects_jobs = 0;
    split_tables_larger_than = none;
    split_max_parts = 0;
    estimate_table_sizes = false;
    drop_if_exists = false;
    roles = false;
    no_role_passwords = false;
    no_owner = false;
    owner_after_restore = false;
    no_acl = true;
    no_comments = false;
    no_tablespaces = false;
    use_copy_binary = none;
    fail_fast = false;
    defer_indexes = false;
    skip = codes "vacuum" ∷ codes "analyze" ∷ [];
    filters = none;
  };
  follow = some (record {
    enabled = true;
    plugin = codes "pgoutput";
    slot_name = [];
    publication = [];
    wal2json_numeric_as_string = false;
    replay_no_op_updates = false;
    apply_group_transactions = 0;
    max_catchup_lag = none;
  });
  cutover = record { mode = manual; approved = true };
  verification = none;
  suspend = false;
  dry_run = false;
  backoff_limit = 3;
}

abbrev pub replication : ReplicationStatus
replication = record {
  write_lsn = lsn 400;
  replay_lsn = lsn 300;
  endpos = lsn 450;
  lag_bytes = some 100;
}

abbrev pub status : MigrationStatus
status = record {
  observed_generation = 1;
  phase = Phase.streaming;
  conditions = [];
  attempts = 1;
  exempt_attempts = 0;
  retry_gate = none;
  progress = none;
  replication = some replication;
  verification = [];
  rehearsal = none;
  verification_progress = [];
  job_name = none;
  started_at = some start;
  completed_at = none;
}

abbrev pub migration : Migration
migration = record {
  namespace = codes "prod";
  name = codes "Orders-2";
  generation = 1;
  deleting = false;
  finalizer = true;
  spec = spec;
  status = status;
}

-- The pass over it, before any call.
abbrev pub pass_over : Migration → Pass
pass_over m = record { m = m; base = m; calls = [] }
