-- ===== src/Migration/Conditions.antt =====
-- Status conditions: the types (api/v1beta1/migration_types.go), the reasons that the controller
-- writes, and the interface of k8s.io/apimachinery's api/meta, which reads and writes a list of
-- conditions and is a parameter of every definition here.
use pgcopydb_operator.Prelude.{
  ℕ, ◌≡◌, Bool, true, false, Option, none, some, List, ◌==◌, if◌then◌else◌,
}

pub data ConditionType : Type 0 where
  validated clone_completed streaming caught_up cutover_complete ownership_applied : ConditionType
  verified complete failed commits_blocked retry_held : ConditionType

abbrev pub type_code : ConditionType → ℕ
type_code validated = 0
type_code clone_completed = 1
type_code streaming = 2
type_code caught_up = 3
type_code cutover_complete = 4
type_code ownership_applied = 5
type_code verified = 6
type_code complete = 7
type_code failed = 8
type_code commits_blocked = 9
type_code retry_held = 10

abbrev pub same_type : ConditionType → ConditionType → Bool
same_type t u = type_code t == type_code u

pub data Reason : Type 0 where
  invalid_spec preflight_failed preflight_running spec_valid : Reason
  clone_running copying_data tables_empty_on_target clone_incomplete snapshot_lost base_copy_done :
      Reason
  clone_failed clone_succeeded replaying lag_below_threshold confirming_catch_up lagging : Reason
  drain_incomplete drain_verified rehearsal_pod_remains : Reason
  ownership_failed ownership_running ownership_done ownership_suspended : Reason
  verification_running compare_passed data_mismatch schema_mismatch : Reason
  migration_succeeded dry_run_succeeded backoff_limit_exceeded : Reason
  permission_denied disk_full schema_drift : Reason
  sync_rep_wait no_sync_rep_wait worker_succeeded sync_rep_unobserved : Reason
  sessions_remain sync_commit_not_local commit_blocked probe_failed gate_probing : Reason
  worker_pod_remains gate_passed hold_suspended hold_migration_failed : Reason
  -- The reasons that only events have.
  attempt_started attempt_failed suspended slot_retained cutover_retry cutover_started completed :
      Reason
  cleanup_started cleanup_failed preflight_started preflight_passed worker_zombie : Reason
  verification_started verified verification_mismatch ownership_started commits_blocked retry_held :
      Reason

abbrev pub reason_code : Reason → ℕ
reason_code Reason.invalid_spec = 0
reason_code Reason.preflight_failed = 1
reason_code Reason.preflight_running = 2
reason_code Reason.spec_valid = 3
reason_code Reason.clone_running = 4
reason_code Reason.copying_data = 5
reason_code Reason.tables_empty_on_target = 6
reason_code Reason.clone_incomplete = 7
reason_code Reason.snapshot_lost = 8
reason_code Reason.base_copy_done = 9
reason_code Reason.clone_failed = 10
reason_code Reason.clone_succeeded = 11
reason_code Reason.replaying = 12
reason_code Reason.lag_below_threshold = 13
reason_code Reason.confirming_catch_up = 14
reason_code Reason.lagging = 15
reason_code Reason.drain_incomplete = 16
reason_code Reason.drain_verified = 17
reason_code Reason.rehearsal_pod_remains = 18
reason_code Reason.ownership_failed = 19
reason_code Reason.ownership_running = 20
reason_code Reason.ownership_done = 21
reason_code Reason.ownership_suspended = 22
reason_code Reason.verification_running = 23
reason_code Reason.compare_passed = 24
reason_code Reason.data_mismatch = 25
reason_code Reason.schema_mismatch = 26
reason_code Reason.migration_succeeded = 27
reason_code Reason.dry_run_succeeded = 28
reason_code Reason.backoff_limit_exceeded = 29
reason_code Reason.permission_denied = 30
reason_code Reason.disk_full = 31
reason_code Reason.schema_drift = 32
reason_code Reason.sync_rep_wait = 33
reason_code Reason.no_sync_rep_wait = 34
reason_code Reason.worker_succeeded = 35
reason_code Reason.sync_rep_unobserved = 36
reason_code Reason.sessions_remain = 37
reason_code Reason.sync_commit_not_local = 38
reason_code Reason.commit_blocked = 39
reason_code Reason.probe_failed = 40
reason_code Reason.gate_probing = 41
reason_code Reason.worker_pod_remains = 42
reason_code Reason.gate_passed = 43
reason_code Reason.hold_suspended = 44
reason_code Reason.hold_migration_failed = 45
reason_code Reason.attempt_started = 46
reason_code Reason.attempt_failed = 47
reason_code Reason.suspended = 48
reason_code Reason.slot_retained = 49
reason_code Reason.cutover_retry = 50
reason_code Reason.cutover_started = 51
reason_code Reason.completed = 52
reason_code Reason.cleanup_started = 53
reason_code Reason.cleanup_failed = 54
reason_code Reason.preflight_started = 55
reason_code Reason.preflight_passed = 56
reason_code Reason.worker_zombie = 57
reason_code Reason.verification_started = 58
reason_code Reason.verified = 59
reason_code Reason.verification_mismatch = 60
reason_code Reason.ownership_started = 61
reason_code Reason.commits_blocked = 62
reason_code Reason.retry_held = 63

-- The test `c.Reason == reason`: the codes differ where the texts do.
abbrev pub same_reason : Reason → Reason → Bool
same_reason r s = reason_code r == reason_code s

-- metav1.ConditionStatus
pub data Verdict : Type 0 where
  yes_true no_false unknown : Verdict

abbrev pub verdict_true : Verdict → Bool
verdict_true yes_true = true
verdict_true _ = false

abbrev pub verdict_false : Verdict → Bool
verdict_false no_false = true
verdict_false _ = false

-- metav1.Condition, without the message
pub record Condition : Type 0 where
  pub type : ConditionType
  pub status : Verdict
  pub reason : Reason
  pub observed_generation : ℕ
  pub last_transition : ℕ

-- meta.FindStatusCondition, SetStatusCondition, RemoveStatusCondition and the two tests.
pub record ConditionApi : Type 0 where
  pub find : List Condition → ConditionType → Option Condition
  pub set : List Condition → Condition → List Condition
  pub remove : List Condition → ConditionType → List Condition
  pub is_true : List Condition → ConditionType → Bool
  pub is_false : List Condition → ConditionType → Bool
  -- The transition time that `set` leaves: the old one, the caller's, or the wall clock's.
  pub stamp : List Condition → Condition → ℕ

abbrev pub has_status : (Verdict → Bool) → Option Condition → Bool
has_status p none = false
has_status p (some c) = p c.status

-- What the package documents of them.
pub record IsLawful (k : ConditionApi) : Type 0 where
  pub find-set :
      (cs : List Condition) (c : Condition) (t : ConditionType)
      → k.find (k.set cs c) t ≡ (
          if same_type c.type t
          then some (record c { last_transition = k.stamp cs c })
          else k.find cs t)
  pub find-remove :
      (cs : List Condition) (t u : ConditionType)
      → k.find (k.remove cs t) u ≡ (if same_type t u then none else k.find cs u)
  pub is_true-find :
      (cs : List Condition) (t : ConditionType)
      → k.is_true cs t ≡ has_status verdict_true (k.find cs t)
  pub is_false-find :
      (cs : List Condition) (t : ConditionType)
      → k.is_false cs t ≡ has_status verdict_false (k.find cs t)
