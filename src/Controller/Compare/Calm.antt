-- ===== src/Controller/Compare/Calm.antt =====
-- Compare progress leaves the core alone.
use pgcopydb_operator.Prelude.{Option, none, some}
use pgcopydb_operator.Migration.{ProgressKind, Time}
use pgcopydb_operator.Migration.Conditions.{ConditionApi}
use pgcopydb_operator.Platform.Types.{Err, Job, Api}
use pgcopydb_operator.Pgcopydb.Compare.{CompareProgress}
use pgcopydb_operator.Platform.Exec.Keeps.{Keeps}
use pgcopydb_operator.Controller.Frame.{Still, still_rules}
use pgcopydb_operator.Controller.Compare.{
  record_sample, record_compare_progress, after_read, read_compare_progress,
}

module _ (k : ConditionApi) (api : Api) where
  record_sample-Still :
      (p : ProgressKind) (j : Job) (t : Time) (c : Option CompareProgress)
      → Keeps (Still k) (record_sample api p j t c)
  unfolding record_sample
  record_sample-Still p j t none = search still_rules
  record_sample-Still p j t (some c) = search still_rules

  pub record_compare_progress-Still :
      (p : ProgressKind) (j : Job) → Keeps (Still k) (record_compare_progress api p j)
  unfolding record_compare_progress
  record_compare_progress-Still p j = search (still_rules, record_sample-Still) depth 14

  after_read-Still :
      (p : ProgressKind) (j : Job) (e : Option Err) (t : Time)
      → Keeps (Still k) (after_read api p j e t)
  unfolding after_read
  after_read-Still p j e t = search (still_rules, record_compare_progress-Still) depth 14

  pub read_compare_progress-Still :
      (p : ProgressKind) (j : Job) → Keeps (Still k) (read_compare_progress api p j)
  unfolding read_compare_progress
  read_compare_progress-Still p j = search (still_rules, after_read-Still) depth 14
