-- ===== src/Migration/Spec.antt =====
-- The spec of a Migration (api/v1beta1/migration_types.go): the fields that the reconciler and the
-- worker's arguments read.
use pgcopydb_operator.Prelude.{ℕ, Bool, true, false, Option, List}
use pgcopydb_operator.Text.{Text}

pub data CutoverMode : Type 0 where
  manual automatic : CutoverMode

abbrev pub is_automatic : CutoverMode → Bool
is_automatic automatic = true
is_automatic manual = false

pub record CutoverSpec : Type 0 where
  pub mode : CutoverMode
  pub approved : Bool

pub record FollowOptions : Type 0 where
  pub enabled : Bool
  pub plugin : Text
  pub slot_name : Text
  pub publication : Text
  pub wal2json_numeric_as_string : Bool
  pub replay_no_op_updates : Bool
  pub apply_group_transactions : ℕ  -- int32
  pub max_catchup_lag : Option ℕ  -- int64, in bytes

pub record VerificationOptions : Type 0 where
  pub schema : Bool
  pub compare_data : Bool
  pub rehearsal : Bool

pub record Filters : Type 0 where
  pub include_only_tables : List Text
  pub exclude_tables : List Text
  pub include_only_schemas : List Text
  pub exclude_schemas : List Text
  pub exclude_indexes : List Text
  pub exclude_table_data : List Text
  pub include_only_extensions : List Text
  pub exclude_extensions : List Text

-- The numbers of jobs and parts are int32, 0 where unset.
pub record CloneOptions : Type 0 where
  pub all_databases : Bool
  pub table_jobs : ℕ
  pub index_jobs : ℕ
  pub restore_jobs : ℕ
  pub large_objects_jobs : ℕ
  -- The value of the quantity in bytes, an int64.
  pub split_tables_larger_than : Option ℕ
  pub split_max_parts : ℕ
  pub estimate_table_sizes : Bool
  pub drop_if_exists : Bool
  pub roles : Bool
  pub no_role_passwords : Bool
  pub no_owner : Bool
  -- The test `OwnerAfterRestore != ""`.
  pub owner_after_restore : Bool
  pub no_acl : Bool
  pub no_comments : Bool
  pub no_tablespaces : Bool
  pub use_copy_binary : Option Bool
  pub fail_fast : Bool
  pub defer_indexes : Bool
  -- SkipOption is a string type.
  pub skip : List Text
  pub filters : Option Filters

-- The worker's requests (corev1.ResourceRequirements): CPU as its MilliValue and memory as its
-- Value, int64, `none` where the list has no entry.
pub record RunnerRequests : Type 0 where
  pub cpu : Option ℕ
  pub memory : Option ℕ

pub record MigrationSpec : Type 0 where
  -- The test `Target.SynchronousCommit == "local"`.
  pub synchronous_commit_local : Bool
  pub runner : RunnerRequests
  pub clone : CloneOptions
  pub follow : Option FollowOptions
  pub cutover : CutoverSpec
  pub verification : Option VerificationOptions
  pub suspend : Bool
  pub dry_run : Bool
  pub backoff_limit : ℕ  -- int32
