-- ===== src/Platform/Types.antt =====
-- The data that a pass of the reconciler reads and writes: Jobs and pods as the Kubernetes API
-- returns them, samples of the databases, what a log says, the calls that a pass makes, and the
-- answers that it gets. The answers may depend on every call made before; two questions with no
-- call between them get the same answer, and nothing else is assumed of them.
use pgcopydb_operator.Prelude.{ℕ, Bool, Option, List}
use pgcopydb_operator.Migration.{Migration, Time, Lsn, CloneProgress}
use pgcopydb_operator.Migration.Name.{JobName}
use pgcopydb_operator.Migration.Conditions.{Reason}
use pgcopydb_operator.Text.{Text}
use pgcopydb_operator.Pgcopydb.Logs.{LogEntry}
use pgcopydb_operator.Pgcopydb.Compare.{CompareProgress}

-- The classes of an API error that the source tells apart.
pub data Err : Type 0 where
  not_found already_exists conflict namespace_terminating other_error : Err

pub data Result {ℓ} (A : Type ℓ) : Type ℓ where
  ok : A → Result A
  err : Err → Result A

-- batchv1.Job, the fields that the reconciler reads.
pub data JobConditionType : Type 0 where
  job_complete job_failed job_other : JobConditionType

pub record JobCondition : Type 0 where
  pub type : JobConditionType
  pub is_true : Bool
  pub last_transition : Time

-- The checks that a retry gate probe runs beside its census (retry_gate_job.go, gateInputs).
pub record GateInputs : Type 0 where
  pub commit_test : Bool
  pub expect_local : Bool

pub record Job : Type 0 where
  pub name : JobName
  pub deleting : Bool
  pub conditions : List JobCondition
  pub start_time : Option Time
  pub completion_time : Option Time
  -- The retry-gate-inputs annotation, `none` where it is missing or is no text of such inputs.
  pub inputs : Option GateInputs

pub data PodPhase : Type 0 where
  pod_pending pod_running pod_succeeded pod_failed pod_unknown : PodPhase

-- corev1.Pod; `job` is the job-name label.
pub record Pod : Type 0 where
  pub job : Option JobName
  pub phase : PodPhase
  pub deleting : Bool

pub data Selector : Type 0 where
  by_job : JobName → Selector
  by_migration : Selector

pub data Propagation : Type 0 where
  foreground background : Propagation

-- What a pass asks of the work queue: nothing, a pass after a delay, or a rate-limited one.
pub data Next : Type 0 where
  finished requeue : Next
  after : Time → Next

-- The calls that change something outside the pass, newest first. An event is written as its
-- reason; `warning` is its type.
pub data Call : Type 0 where
  create_job : JobName → Call
  create_owned : Call
  delete_job : JobName → Propagation → Call
  delete_pod : Pod → Call
  -- base, the object, and whether the patch carries the optimistic lock
  patch_status : Migration → Migration → Bool → Call
  patch_finalizer : Bool → Call
  event : (warning : Bool) → Reason → Call
  set_endpos nudge_endpos stop_sampling forget_metrics record_work_node : Call

abbrev pub Trace : Type 0
Trace = List Call

-- The positions that the sampling script shows of the slot (internal/sentinel/sentinel.go,
-- parseSample).
pub record SlotSample : Type 0 where
  pub write_lsn : Lsn
  pub replay_lsn : Lsn
  pub source_head : Lsn

-- One replication sample (internal/sentinel/sentinel.go, State).
pub record SentinelState : Type 0 where
  pub write_lsn : Lsn
  pub replay_lsn : Lsn
  pub endpos : Lsn
  pub source_head : Lsn

-- What internal/pgcopydb/logs.go finds in a worker's log.
pub record WorkerLog : Type 0 where
  pub permission_denied : Bool
  pub disk_full : Bool
  pub schema_drift : Bool
  pub snapshot_lost : Bool
  pub clone_done : Bool
  pub supervisor_death : Option Time

-- progress.RelationCounts and progress.SyncRepWait
pub record RelationCounts : Type 0 where
  pub tables_total : ℕ
  pub tables_done : ℕ
  pub indexes_total : ℕ
  pub indexes_done : ℕ
  pub bytes_total : ℕ
  pub bytes_done : ℕ
  pub empty_on_target : Text

pub record SyncRepWait : Type 0 where
  pub waiting : ℕ  -- int64
  pub oldest_seconds : ℕ  -- int64
  pub pgcopydb_named : ℕ  -- int64

-- progress.Sample; a size is an int64, `lost` the map of the sides that gave no row.
pub record Sample : Type 0 where
  pub source_size : Option ℕ
  pub target_size : Option ℕ
  pub counts : Option RelationCounts
  pub copying : Bool
  pub finalizing : Bool
  pub copy_started : Bool
  pub sync_rep : Option SyncRepWait
  pub lost : Text → Option Text

-- sampled; `at` is 0 when nothing sampled yet
pub record Sampled : Type 0 where
  pub sample : Option Sample
  pub at : Time
  pub copy_seen : Bool
  pub sync_rep_confirmed : Bool

-- A census line, and what a probe's log says (retry_gate_budget.go, retry_gate_job.go). The
-- numbers are int64.
pub record GateCensus : Type 0 where
  pub total : ℕ
  pub sync_rep : ℕ
  pub gate_waiting : ℕ
  pub sync_rep_since : ℕ
  pub named : Bool

pub data CommitResult : Type 0 where
  commit_absent commit_ok commit_blocked commit_skipped commit_failed commit_other : CommitResult

pub record GateResult : Type 0 where
  pub census : Option GateCensus
  -- SHOW synchronous_commit, read as: is it local?
  pub sync_commit : Option Bool
  pub commit : CommitResult
  pub pass : Bool

pub record Api : Type 0 where
  pub now : Trace → Time
  pub get_job : Trace → (uncached : Bool) → JobName → Result Job
  pub create_job_error : Trace → JobName → Option Err
  pub create_owned_error : Trace → Option Err
  pub delete_job_error : Trace → JobName → Option Err
  pub delete_pod_error : Trace → Pod → Option Err
  pub patch_error : Trace → Option Err
  pub list_pods : Trace → Selector → Result (List Pod)
  -- podWaitDetail: some pod of the Job cannot start.
  pub pod_wait_detail : Trace → JobName → Bool
  pub list_jobs : Trace → Result (List Job)
  -- The error of a Job's builder (resources.go), a function of the Migration and the name.
  pub build_error : Migration → JobName → Option Err
  -- `r.Logs != nil`, `r.Sentinel != nil`, and the answers of both.
  pub has_logs : Bool
  pub has_sentinel : Bool
  pub log_error : Trace → JobName → Option Err
  -- The raw log of a worker Job, without and with timestamps, and json.Unmarshal of a line and
  -- time.Parse, which read it.
  pub worker_log : Trace → JobName → Text
  pub stamped_log : Trace → JobName → Text
  pub decode : Text → Option LogEntry
  pub parse_time : Text → Option Time
  -- The raw log of a probe Job, up to where reading it failed.
  pub gate_log : Trace → JobName → Text
  -- The raw log of a compare Job, and json.Unmarshal of a progress line.
  pub compare_log : Trace → JobName → Text
  pub unmarshal : Text → Option CompareProgress
  pub catalog_progress : Trace → JobName → Option CloneProgress
  pub sentinel_read : Trace → Result (Option SlotSample)
  pub set_endpos_reply : Trace → Result Lsn
  -- The sampler's answer (`progressSample`), and whether a pgcopydb version may list progress.
  pub progress_sample : Trace → Bool → Sampled
  pub progress_gate : Bool
