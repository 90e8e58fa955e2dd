-- ===== src/Controller/Stop/Calm.antt =====
-- A suspended pass leaves the core alone and creates nothing; a deletion creates no worker.
use pgcopydb_operator.Prelude.{refl, false, Option, none, some}
use pgcopydb_operator.Migration.Name.{JobName}
use pgcopydb_operator.Migration.Conditions.{ConditionApi, IsLawful}
use pgcopydb_operator.Platform.Types.{not_found, Result, ok, err, Job, Api}
use pgcopydb_operator.Platform.Exec.{modify}
use pgcopydb_operator.Platform.Exec.Keeps.{Keeps}
use pgcopydb_operator.Controller.Frame.{Still, Calm, modify-Still, still_rules, calm_rules}
use pgcopydb_operator.Controller.Jobs.Calm.{delete_job_ok-Still}
use pgcopydb_operator.Controller.Status.Calm.{update_status-Still}
use pgcopydb_operator.Controller.Hold.Calm.{end_hold-Still}
use pgcopydb_operator.Controller.Rehearsal.Calm.{cancel_rehearsal-Still}
use pgcopydb_operator.Controller.Finish.Stages.Calm.{ensure_cleanup-Calm}
use pgcopydb_operator.Controller.Stop.{
  stop_found, stop_worker, stop_preflight, stop_reown, reconcile_suspended, remove_finalizer,
  cleaned_up, after_worker, with_worker, reconcile_deletion,
}

module _ (k : ConditionApi) (L : IsLawful k) (api : Api) where
  stop_found-Still : (r : Result Job) → Keeps (Still k) (stop_found k api r)
  unfolding stop_found
  stop_found-Still (ok j) = search (still_rules, delete_job_ok-Still) depth 14
  stop_found-Still (err not_found) = search still_rules
  stop_found-Still (err _) = search still_rules

  stop_worker-Still : (n : Option JobName) → Keeps (Still k) (stop_worker k api n)
  unfolding stop_worker
  stop_worker-Still none = search still_rules
  stop_worker-Still (some n) = search (still_rules, stop_found-Still) depth 14

  stop_preflight-Still : (r : Result Job) → Keeps (Still k) (stop_preflight k api r)
  unfolding stop_preflight
  stop_preflight-Still (ok j) = search (still_rules, delete_job_ok-Still) depth 14
  stop_preflight-Still (err not_found) = search still_rules
  stop_preflight-Still (err _) = search still_rules

  stop_reown-Still : (r : Result Job) → Keeps (Still k) (stop_reown k api r)
  unfolding stop_reown
  stop_reown-Still (ok j) = search (still_rules, delete_job_ok-Still) depth 14
  stop_reown-Still (err not_found) = search still_rules
  stop_reown-Still (err _) = search still_rules

  pub reconcile_suspended-Still : Keeps (Still k) (reconcile_suspended k api)
  unfolding reconcile_suspended
  reconcile_suspended-Still =
      search
        (
          still_rules, cancel_rehearsal-Still, stop_worker-Still, stop_preflight-Still,
          stop_reown-Still, delete_job_ok-Still, end_hold-Still, update_status-Still,
        )
        depth 24

  clear_finalizer : Keeps (Still k) (modify (λ m. record m { finalizer = false }))
  clear_finalizer =
      modify-Still k (λ m. record m { finalizer = false })
        (λ m. record {
          spec = refl;
          attempts = refl;
          replication = refl;
          complete = refl;
          cutover = refl;
        })

  remove_finalizer-Still : Keeps (Still k) (remove_finalizer k api)
  unfolding remove_finalizer
  remove_finalizer-Still = search (still_rules, clear_finalizer) depth 14

  cleaned_up-Calm : Keeps (Calm k) (cleaned_up k api)
  unfolding cleaned_up
  cleaned_up-Calm = search (calm_rules, ensure_cleanup-Calm, remove_finalizer-Still) depth 14

  after_worker-Calm : (r : Result Job) → Keeps (Calm k) (after_worker k api r)
  unfolding after_worker
  after_worker-Calm (ok j) = search (calm_rules, cleaned_up-Calm, delete_job_ok-Still) depth 14
  after_worker-Calm (err e) = cleaned_up-Calm

  with_worker-Calm : (n : Option JobName) → Keeps (Calm k) (with_worker k api n)
  unfolding with_worker
  with_worker-Calm none = cleaned_up-Calm
  with_worker-Calm (some n) = search (calm_rules, after_worker-Calm) depth 14

  pub reconcile_deletion-Calm : Keeps (Calm k) (reconcile_deletion k api)
  unfolding reconcile_deletion
  reconcile_deletion-Calm =
      search (calm_rules, cancel_rehearsal-Still, with_worker-Calm, remove_finalizer-Still) depth 16
