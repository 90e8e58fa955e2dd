-- ===== src/Controller/Reconcile/Calm.antt =====
-- The parts of a pass that create no worker: the preflight, what is owned, and the passes of a
-- finished or a new Migration.
use pgcopydb_operator.Prelude.{refl, Bool, true, Option, none, some}
use pgcopydb_operator.Migration.{Time}
use pgcopydb_operator.Migration.Conditions.{ConditionApi, IsLawful}
use pgcopydb_operator.Platform.Types.{Job, Api}
use pgcopydb_operator.Platform.Exec.{modify}
use pgcopydb_operator.Platform.Exec.Keeps.{Keeps}
use pgcopydb_operator.Controller.Frame.{Still, Calm, modify-Still, still_rules, calm_rules}
use pgcopydb_operator.Controller.Jobs.{Finish, job_running, job_succeeded, job_has_failed}
use pgcopydb_operator.Controller.Jobs.Calm.{ensure_job-Calm}
use pgcopydb_operator.Controller.Status.Calm.{
  update_status-Still, observe_generation-Still, patch-Still,
}
use pgcopydb_operator.Controller.Hold.Calm.{fail-Still}
use pgcopydb_operator.Controller.Rehearsal.Calm.{cancel_rehearsal-Still}
use pgcopydb_operator.Controller.Reconcile.Preflight.{
  preflight_read, preflight_result, preflight_job, ensure_preflight, ensure_finalizer, ensure_owned,
}
use pgcopydb_operator.Controller.Reconcile.{gate_result, preflight_gate, terminal_pass, first_pass}

module _ (k : ConditionApi) (L : IsLawful k) (api : Api) where
  preflight_read-Still :
      (j : Job) (b : Bool) (t : Time) → Keeps (Still k) (preflight_read api j b t)
  unfolding preflight_read
  preflight_read-Still j b t = search still_rules

  preflight_result-Still : (j : Job) (f : Finish) → Keeps (Still k) (preflight_result api j f)
  unfolding preflight_result
  preflight_result-Still j job_running = search still_rules
  preflight_result-Still j job_succeeded = search still_rules
  preflight_result-Still j job_has_failed = search (still_rules, preflight_read-Still) depth 14

  preflight_job-Still : (j : Option Job) → Keeps (Still k) (preflight_job api j)
  unfolding preflight_job
  preflight_job-Still none = search still_rules
  preflight_job-Still (some j) = search (still_rules, preflight_result-Still)

  ensure_preflight-Calm : Keeps (Calm k) (ensure_preflight api)
  unfolding ensure_preflight
  ensure_preflight-Calm = search (calm_rules, ensure_job-Calm, preflight_job-Still) depth 14

  mark_finalizer : Keeps (Still k) (modify (λ m. record m { finalizer = true }))
  mark_finalizer =
      modify-Still k (λ m. record m { finalizer = true })
        (λ m. record {
          spec = refl;
          attempts = refl;
          replication = refl;
          complete = refl;
          cutover = refl;
        })

  pub ensure_finalizer-Still : Keeps (Still k) (ensure_finalizer api)
  unfolding ensure_finalizer
  ensure_finalizer-Still = search (still_rules, mark_finalizer) depth 14

  pub ensure_owned-Still : Keeps (Still k) (ensure_owned api)
  unfolding ensure_owned
  ensure_owned-Still = search still_rules depth 14

  gate_result-Still : (f : Finish) → Keeps (Still k) (gate_result k api f)
  unfolding gate_result
  gate_result-Still job_has_failed = search (still_rules, fail-Still, update_status-Still) depth 14
  gate_result-Still job_running = search (still_rules, update_status-Still) depth 14
  gate_result-Still job_succeeded = search still_rules depth 14

  pub preflight_gate-Calm : Keeps (Calm k) (preflight_gate k api)
  unfolding preflight_gate
  preflight_gate-Calm = search (calm_rules, ensure_preflight-Calm, gate_result-Still) depth 14

  pub terminal_pass-Still : Keeps (Still k) (terminal_pass k api)
  unfolding terminal_pass
  terminal_pass-Still = search (still_rules, cancel_rehearsal-Still, update_status-Still) depth 14

  pub first_pass-Still : Keeps (Still k) (first_pass k api)
  unfolding first_pass
  first_pass-Still = search (still_rules, observe_generation-Still, patch-Still) depth 14
