-- ===== src/Controller/Finish/Onward.antt =====
-- The finish paths create no worker, keep the spec and keep a recorded endpos.
use pgcopydb_operator.Prelude.{if◌then◌else◌, Option, none, some}
use pgcopydb_operator.Migration.Conditions.{ConditionApi, IsLawful}
use pgcopydb_operator.Platform.Types.{Next, Api}
use pgcopydb_operator.Platform.Exec.{Exec}
use pgcopydb_operator.Platform.Exec.Keeps.{Keeps, Keeps-bind, Keeps-if}
use pgcopydb_operator.Controller.Onward.{
  Quiet, Quiet-IsPreorder, Calm-Quiet, Still-Quiet, quiet_rules,
}
use pgcopydb_operator.Controller.Jobs.{Finish, job_running, job_succeeded, job_has_failed}
use pgcopydb_operator.Controller.Status.Calm.{update_status-Still}
use pgcopydb_operator.Controller.Hold.Calm.{fail-Still}
use pgcopydb_operator.Controller.Rehearsal.Calm.{cancel_rehearsal-Still}
use pgcopydb_operator.Controller.Rehearsal.Drain.Calm.{
  Steady-Quiet, drain_waits_for_rehearsal-Steady,
}
use pgcopydb_operator.Controller.Reown.Calm.{reown_gate-Calm}
use pgcopydb_operator.Controller.Verification.{ensure_verification}
use pgcopydb_operator.Controller.Verification.Calm.{ensure_verification-Calm}
use pgcopydb_operator.Controller.Finish.Stages.{Catalog, catalog_running, tables_owed, nothing_owed}
use pgcopydb_operator.Controller.Finish.Stages.Calm.{
  ensure_catalog_check-Calm, ensure_verify-Calm, ensure_cleanup-Calm,
}
use pgcopydb_operator.Controller.Finish.{
  answered, waiting, done_with, complete_now, verify_then, clone_verified, after_catalog,
  finish_clone, follow_verified, after_drain, finish_follow,
}

module _ (k : ConditionApi) (L : IsLawful k) (api : Api) where
  answered-Quiet : (o : Option Next) (m : Exec Next) → Keeps Quiet m → Keeps Quiet (answered o m)
  answered-Quiet none m h = h
  answered-Quiet (some n) m h = search quiet_rules

  waiting-Quiet : Keeps Quiet (waiting k api)
  unfolding waiting
  waiting-Quiet = search (quiet_rules, Still-Quiet k, update_status-Still) depth 14

  done_with-Quiet : Keeps Quiet (done_with k api)
  unfolding done_with
  done_with-Quiet = search (quiet_rules, Still-Quiet k, update_status-Still) depth 14

  complete_now-Quiet : Keeps Quiet (complete_now k api)
  unfolding complete_now
  complete_now-Quiet = search (quiet_rules, done_with-Quiet) depth 14

  verify_then-Quiet : (m : Exec Next) → Keeps Quiet m → Keeps Quiet (verify_then k api m)
  unfolding verify_then
  verify_then-Quiet m h =
      Keeps-bind Quiet-IsPreorder (ensure_verification k api) (λ b. if b then m else waiting k api)
        (Calm-Quiet k (ensure_verification k api) (ensure_verification-Calm k L api))
        (λ b. Keeps-if Quiet-IsPreorder b m (waiting k api) h waiting-Quiet)

  clone_verified-Quiet : Keeps Quiet (clone_verified k api)
  unfolding clone_verified
  clone_verified-Quiet =
      search
        (
          quiet_rules,
          Calm-Quiet k,
          reown_gate-Calm,
          answered-Quiet,
          verify_then-Quiet,
          complete_now-Quiet,
        )
        depth 14

  after_catalog-Quiet : (c : Catalog) → Keeps Quiet (after_catalog k api c)
  unfolding after_catalog
  after_catalog-Quiet catalog_running = waiting-Quiet
  after_catalog-Quiet nothing_owed = clone_verified-Quiet
  after_catalog-Quiet tables_owed =
      search (quiet_rules, Still-Quiet k, fail-Still, done_with-Quiet) depth 14

  pub finish_clone-Quiet : Keeps Quiet (finish_clone k api)
  unfolding finish_clone
  finish_clone-Quiet =
      search
        (
          quiet_rules,
          Calm-Quiet k,
          ensure_catalog_check-Calm,
          after_catalog-Quiet,
          clone_verified-Quiet,
        )
        depth 14

  follow_verified-Quiet : Keeps Quiet (follow_verified k api)
  unfolding follow_verified
  follow_verified-Quiet =
      search
        (
          quiet_rules,
          Calm-Quiet k,
          ensure_cleanup-Calm,
          verify_then-Quiet,
          complete_now-Quiet,
          waiting-Quiet,
        )
        depth 14

  after_drain-Quiet : (f : Finish) → Keeps Quiet (after_drain k api f)
  unfolding after_drain
  after_drain-Quiet job_running = waiting-Quiet
  after_drain-Quiet job_has_failed =
      search (quiet_rules, Still-Quiet k, fail-Still, done_with-Quiet) depth 14
  after_drain-Quiet job_succeeded =
      search (quiet_rules, Calm-Quiet k, reown_gate-Calm, answered-Quiet, follow_verified-Quiet)
        depth 14

  pub finish_follow-Quiet : Keeps Quiet (finish_follow k api)
  unfolding finish_follow
  finish_follow-Quiet =
      search
        (
          quiet_rules,
          Still-Quiet k,
          Steady-Quiet k,
          Calm-Quiet k,
          cancel_rehearsal-Still,
          drain_waits_for_rehearsal-Steady,
          ensure_verify-Calm,
          after_drain-Quiet,
          waiting-Quiet,
        )
        depth 16
