-- ===== src/Controller/Rehearsal/Run/Calm.antt =====
-- Observing a rehearsal creates nothing, and no step of one creates a worker.
use pgcopydb_operator.Prelude.{Option, none, some}
use pgcopydb_operator.Migration.Name.{JobName}
use pgcopydb_operator.Migration.Conditions.{ConditionApi}
use pgcopydb_operator.Platform.Types.{Result, ok, err, Job, Api}
use pgcopydb_operator.Platform.Exec.Keeps.{Keeps}
use pgcopydb_operator.Controller.Frame.{Still, Calm, still_rules, calm_rules}
use pgcopydb_operator.Controller.Jobs.Calm.{delete_job_ok-Still, ensure_job-Calm}
use pgcopydb_operator.Controller.Compare.Calm.{read_compare_progress-Still}
use pgcopydb_operator.Controller.Rehearsal.Run.{
  delete_named, start_rehearsal, observe_job, observe_rehearsal, not_started, disarm, reported,
  try_start, reconcile_rehearsal,
}
use pgcopydb_operator.Controller.Rehearsal.Calm.{
  recorded_job-Still, record_rehearsal-Still, cancel_rehearsal-Still, rehearsal_pod-Still,
}

module _ (k : ConditionApi) (api : Api) where
  delete_named-Still : (o : Option JobName) (n : JobName) → Keeps (Still k) (delete_named api o n)
  unfolding delete_named
  delete_named-Still none n = search still_rules
  delete_named-Still (some o) n = search (still_rules, delete_job_ok-Still) depth 14

  start_rehearsal-Calm : Keeps (Calm k) (start_rehearsal api)
  unfolding start_rehearsal
  start_rehearsal-Calm = search (calm_rules, delete_named-Still, ensure_job-Calm) depth 16

  observe_job-Still : (job : Option Job) → Keeps (Still k) (observe_job api job)
  unfolding observe_job
  observe_job-Still none = search still_rules depth 14
  observe_job-Still (some job) =
      search (still_rules, read_compare_progress-Still, record_rehearsal-Still) depth 14

  pub observe_rehearsal-Still : Keeps (Still k) (observe_rehearsal api)
  unfolding observe_rehearsal
  observe_rehearsal-Still = search (still_rules, observe_job-Still, recorded_job-Still) depth 14

  not_started-Still : Keeps (Still k) (not_started api)
  unfolding not_started
  not_started-Still = search still_rules depth 14

  pub disarm-Still : Keeps (Still k) (disarm api)
  unfolding disarm
  disarm-Still = search (still_rules, cancel_rehearsal-Still, rehearsal_pod-Still) depth 14

  reported-Still : (r : Result (Unit {0})) → Keeps (Still k) (reported api r)
  unfolding reported
  reported-Still (ok u) = search still_rules
  reported-Still (err e) = search (still_rules, not_started-Still) depth 14

  try_start-Calm : Keeps (Calm k) (try_start api)
  unfolding try_start
  try_start-Calm = search (calm_rules, start_rehearsal-Calm, reported-Still) depth 14

  pub reconcile_rehearsal-Calm : Keeps (Calm k) (reconcile_rehearsal api)
  unfolding reconcile_rehearsal
  reconcile_rehearsal-Calm =
      search
        (
          calm_rules, disarm-Still, cancel_rehearsal-Still, observe_rehearsal-Still,
          not_started-Still, try_start-Calm,
        )
        depth 16
