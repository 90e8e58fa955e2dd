-- ===== src/Controller/Reown/Calm.antt =====
-- The handover creates no worker and completes nothing.
use pgcopydb_operator.Migration.{Phase}
use pgcopydb_operator.Migration.Conditions.{ConditionApi, IsLawful}
use pgcopydb_operator.Platform.Types.{not_found, Result, ok, err, Job, Api}
use pgcopydb_operator.Platform.Exec.Keeps.{Keeps}
use pgcopydb_operator.Controller.Frame.{Still, Calm, still_rules, calm_rules}
use pgcopydb_operator.Controller.Jobs.{Finish, job_running, job_succeeded, job_has_failed}
use pgcopydb_operator.Controller.Jobs.Calm.{ensure_job-Calm}
use pgcopydb_operator.Controller.Status.Calm.{update_status-Still}
use pgcopydb_operator.Controller.Hold.Calm.{fail-Still}
use pgcopydb_operator.Controller.Reown.{
  reown_result, ensure_reown, reown_gated, reown_gate, exists_result, reown_job_exists,
}

module _ (k : ConditionApi) (L : IsLawful k) (api : Api) where
  reown_result-Still : (f : Finish) → Keeps (Still k) (reown_result k api f)
  unfolding reown_result
  reown_result-Still job_running = search still_rules depth 14
  reown_result-Still job_succeeded = search still_rules depth 14
  reown_result-Still job_has_failed = search still_rules depth 14

  ensure_reown-Calm : Keeps (Calm k) (ensure_reown k api)
  unfolding ensure_reown
  ensure_reown-Calm = search (calm_rules, ensure_job-Calm, reown_result-Still) depth 16

  reown_gated-Still : (p : Phase) (f : Finish) → Keeps (Still k) (reown_gated k api p f)
  unfolding reown_gated
  reown_gated-Still p job_succeeded = search still_rules depth 14
  reown_gated-Still p job_has_failed =
      search (still_rules, fail-Still, update_status-Still) depth 14
  reown_gated-Still p job_running = search (still_rules, update_status-Still) depth 14

  pub reown_gate-Calm : (p : Phase) → Keeps (Calm k) (reown_gate k api p)
  unfolding reown_gate
  reown_gate-Calm p = search (calm_rules, ensure_reown-Calm, reown_gated-Still) depth 16

  exists_result-Still : (r : Result Job) → Keeps (Still k) (exists_result k api r)
  unfolding exists_result
  exists_result-Still (err not_found) = search still_rules
  exists_result-Still (err _) = search still_rules
  exists_result-Still (ok _) = search still_rules

  pub reown_job_exists-Still : Keeps (Still k) (reown_job_exists k api)
  unfolding reown_job_exists
  reown_job_exists-Still = search (still_rules, exists_result-Still) depth 14
