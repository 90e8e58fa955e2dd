-- ===== src/Controller/Reconcile/Onward.antt =====
-- The parts of a pass that lead to an attempt.
use pgcopydb_operator.Prelude.{Option, none, some}
use pgcopydb_operator.Migration.{Time}
use pgcopydb_operator.Migration.Name.{JobName}
use pgcopydb_operator.Migration.Conditions.{ConditionApi, IsLawful}
use pgcopydb_operator.Platform.Types.{not_found, Result, ok, err, Job, Next, Api}
use pgcopydb_operator.Platform.Exec.{Exec}
use pgcopydb_operator.Platform.Exec.Keeps.{Keeps}
use pgcopydb_operator.Controller.Frame.{calm_rules}
use pgcopydb_operator.Controller.Onward.{
  Quiet, Onward, Calm-Quiet, Still-Quiet, quiet_rules, onward_rules,
}
use pgcopydb_operator.Controller.Launch.{Launches, Launches-left, Launches-if, Launches-Quiet}
use pgcopydb_operator.Controller.Jobs.{Finish, job_running, job_succeeded, job_has_failed}
use pgcopydb_operator.Controller.Status.Calm.{update_status-Still}
use pgcopydb_operator.Controller.Hold.Calm.{fail-Still}
use pgcopydb_operator.Controller.Finish.{answered}
use pgcopydb_operator.Controller.Finish.Onward.{finish_clone-Quiet, finish_follow-Quiet}
use pgcopydb_operator.Controller.Attempt.Onward.{
  next_attempt-Launches, next_attempt-Onward, handle_failed_job-Quiet,
}
use pgcopydb_operator.Controller.Observe.Onward.{observe_running_job-Quiet}
use pgcopydb_operator.Controller.Reconcile.{
  complete_dry_run, worker_done, on_worker, worker_job, current_worker, after_gate, active_pass,
}
use pgcopydb_operator.Controller.Reconcile.Calm.{
  ensure_finalizer-Still, ensure_owned-Still, preflight_gate-Calm,
}

module _ (k : ConditionApi) (L : IsLawful k) (api : Api) where
  pub complete_dry_run-Quiet : Keeps Quiet (complete_dry_run k api)
  unfolding complete_dry_run
  complete_dry_run-Quiet = search (quiet_rules, Still-Quiet k, update_status-Still) depth 14

  worker_done-Quiet : (j : Job) → Keeps Quiet (worker_done k api j)
  unfolding worker_done
  worker_done-Quiet j = search (quiet_rules, finish_clone-Quiet, finish_follow-Quiet) depth 14

  on_worker-Quiet : (t : Time) (j : Job) (f : Finish) → Keeps Quiet (on_worker k api t j f)
  unfolding on_worker
  on_worker-Quiet t j job_running = observe_running_job-Quiet k L api j t
  on_worker-Quiet t j job_succeeded = worker_done-Quiet j
  on_worker-Quiet t j job_has_failed = handle_failed_job-Quiet k L api j

  worker_job-Launches : (t : Time) (r : Result Job) → Keeps Launches (worker_job k api t r)
  unfolding worker_job
  worker_job-Launches t (err not_found) = next_attempt-Launches k L api
  worker_job-Launches t (err _) = search (quiet_rules, Launches-Quiet)
  worker_job-Launches t (ok j) = search (Launches-Quiet, on_worker-Quiet)

  worker_job-Onward : (t : Time) (r : Result Job) → Keeps Onward (worker_job k api t r)
  unfolding worker_job
  worker_job-Onward t (err not_found) = next_attempt-Onward k L api
  worker_job-Onward t (err _) = search onward_rules
  worker_job-Onward t (ok j) = search (onward_rules, on_worker-Quiet)

  current_worker-Launches :
      (t : Time) (n : Option JobName) → Keeps Launches (current_worker k api t n)
  unfolding current_worker
  current_worker-Launches t none = next_attempt-Launches k L api
  current_worker-Launches t (some n) =
      search (calm_rules, Launches-left k, worker_job-Launches) depth 14

  current_worker-Onward : (t : Time) (n : Option JobName) → Keeps Onward (current_worker k api t n)
  unfolding current_worker
  current_worker-Onward t none = next_attempt-Onward k L api
  current_worker-Onward t (some n) = search (onward_rules, worker_job-Onward) depth 14

  after_gate-Launches : (t : Time) → Keeps Launches (after_gate k api t)
  unfolding after_gate
  after_gate-Launches t =
      search
        (
          calm_rules,
          Launches-left k,
          Launches-if,
          Launches-Quiet,
          complete_dry_run-Quiet,
          current_worker-Launches,
        )
        depth 16

  after_gate-Onward : (t : Time) → Keeps Onward (after_gate k api t)
  unfolding after_gate
  after_gate-Onward t =
      search (onward_rules, complete_dry_run-Quiet, current_worker-Onward) depth 16

  answered-Launches :
      (o : Option Next) (m : Exec Next) → Keeps Launches m → Keeps Launches (answered o m)
  answered-Launches none m h = h
  answered-Launches (some n) m h = search (quiet_rules, Launches-Quiet)

  answered-Onward : (o : Option Next) (m : Exec Next) → Keeps Onward m → Keeps Onward (answered o m)
  answered-Onward none m h = h
  answered-Onward (some n) m h = search onward_rules

  pub active_pass-Launches : (t : Time) → Keeps Launches (active_pass k api t)
  unfolding active_pass
  active_pass-Launches t =
      search
        (
          calm_rules,
          Launches-left k,
          Launches-if,
          Launches-Quiet,
          Calm-Quiet k,
          fail-Still,
          update_status-Still,
          ensure_finalizer-Still,
          ensure_owned-Still,
          preflight_gate-Calm,
          answered-Launches,
          after_gate-Launches,
        )
        depth 20

  pub active_pass-Onward : (t : Time) → Keeps Onward (active_pass k api t)
  unfolding active_pass
  active_pass-Onward t =
      search
        (
          onward_rules,
          Still-Quiet k,
          Calm-Quiet k,
          fail-Still,
          update_status-Still,
          ensure_finalizer-Still,
          ensure_owned-Still,
          preflight_gate-Calm,
          answered-Onward,
          after_gate-Onward,
        )
        depth 20
