-- ===== src/Migration.antt =====
-- The Migration resource (api/v1beta1/migration_types.go): the spec fields that the reconciler
-- reads (its spec in Spec) and the whole status, without the message texts, which no branch reads. A nil pointer is
-- `none`, an enum string its constructor. Numbers are bit patterns (`Prelude.Word`); a time counts
-- nanoseconds, and 0 is the zero time.
pub mod Conditions
pub mod Name
pub mod Spec
pub use Spec.*
use Conditions.{Condition}
use Name.{JobName}
use pgcopydb_operator.Text.{Text}
use pgcopydb_operator.Prelude.{
  ℕ, zero, suc, ◌+◌, ◌*◌, Bool, true, false, Option, none, some, List, [], ◌==◌, is_some,
}

abbrev pub Time : Type 0
Time = ℕ

abbrev pub second : ℕ
second = 1000000000

pub data Phase : Type 0 where
  pending validating cloning finalizing streaming cutover_pending cutting_over verifying : Phase
  completed failed suspended : Phase
  -- The empty string of a status that was never written.
  unset : Phase

-- The verdict on a failed attempt; `undecided` is the empty string.
pub data Exemption : Type 0 where
  undecided exempt counted : Exemption

abbrev pub is_undecided : Exemption → Bool
is_undecided undecided = true
is_undecided exempt = false
is_undecided counted = false

abbrev pub is_counted : Exemption → Bool
is_counted counted = true
is_counted undecided = false
is_counted exempt = false

abbrev pub is_exempt : Exemption → Bool
is_exempt exempt = true
is_exempt undecided = false
is_exempt counted = false

pub record RetryGateStatus : Type 0 where
  pub failed_attempt : ℕ  -- int32
  pub failed_at : Time
  pub exemption : Exemption
  pub clone_done_seen : Bool

-- The text of an LSN: `null_lsn` is "0/0", `no_lsn` the empty string, and `lsn n` any other text,
-- which parses to the position n. What the worker reports was parsed before it is kept.
pub data Lsn : Type 0 where
  no_lsn null_lsn : Lsn
  lsn : ℕ → Lsn

pub record ReplicationStatus : Type 0 where
  pub write_lsn : Lsn
  pub replay_lsn : Lsn
  pub endpos : Lsn
  pub lag_bytes : Option ℕ  -- int64

pub record CloneProgress : Type 0 where
  pub tables_total : ℕ
  pub tables_done : ℕ
  pub indexes_total : ℕ
  pub indexes_done : ℕ
  pub bytes_total : Option ℕ
  pub bytes_done : Option ℕ
  pub observed_at : Option Time

pub data Check : Type 0 where
  schema_check data_check : Check

pub record VerificationResult : Type 0 where
  pub check : Check
  pub passed : Bool
  pub started_at : Option Time
  pub completed_at : Option Time

pub data Outcome : Type 0 where
  not_run running completed canceled failed : Outcome

abbrev pub is_running : Outcome → Bool
is_running running = true
is_running _ = false

pub record RehearsalStatus : Type 0 where
  pub armed : Bool
  pub run : ℕ  -- int32
  pub job_name : Option JobName
  pub started_at : Option Time
  pub completed_at : Option Time
  pub outcome : Outcome

-- The kinds of compare data run.
pub data ProgressKind : Type 0 where
  rehearsal_run drain_run data_run : ProgressKind

-- The counters of a compare progress line. The tables in flight are left out.
pub record CompareCounts : Type 0 where
  pub planned_tables : ℕ
  pub compared_tables : ℕ
  pub planned_bytes : ℕ
  pub compared_bytes : ℕ
  pub compared_rows : ℕ
  pub differing_tables : ℕ
  pub failed_tables : ℕ
  pub elapsed : ℕ

pub record VerificationProgress : Type 0 where
  pub kind : ProgressKind
  pub job_name : JobName
  pub observed_at : Option Time
  pub final : Bool
  pub counts : CompareCounts

pub record MigrationStatus : Type 0 where
  pub observed_generation : ℕ
  pub phase : Phase
  pub conditions : List Condition
  pub attempts : ℕ  -- int32
  pub exempt_attempts : ℕ  -- int32
  pub retry_gate : Option RetryGateStatus
  pub progress : Option CloneProgress
  pub replication : Option ReplicationStatus
  pub verification : List VerificationResult
  pub rehearsal : Option RehearsalStatus
  pub verification_progress : List VerificationProgress
  -- The worker's Job; `none` is the empty string.
  pub job_name : Option JobName
  pub started_at : Option Time
  pub completed_at : Option Time

pub record Migration : Type 0 where
  pub namespace : Text
  pub name : Text
  pub generation : ℕ
  -- The test `DeletionTimestamp.IsZero()` fails.
  pub deleting : Bool
  -- The cleanup finalizer is set.
  pub finalizer : Bool
  pub spec : MigrationSpec
  pub status : MigrationStatus

abbrev enabled_in : Option FollowOptions → Bool
enabled_in none = false
enabled_in (some f) = f.enabled

-- followEnabled
unfoldable pub follow_enabled : Migration → Bool
follow_enabled m = enabled_in m.spec.follow
