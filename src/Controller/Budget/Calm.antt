-- ===== src/Controller/Budget/Calm.antt =====
-- A verdict and a spent budget leave the core alone.
use pgcopydb_operator.Migration.{Exemption}
use pgcopydb_operator.Migration.Conditions.{ConditionApi, IsLawful}
use pgcopydb_operator.Platform.Types.{Api}
use pgcopydb_operator.Platform.Exec.Keeps.{Keeps}
use pgcopydb_operator.Controller.Frame.{Still, still_rules}
use pgcopydb_operator.Controller.Status.Calm.{patch_status_locked-Still}
use pgcopydb_operator.Controller.Hold.Calm.{fail-Still}
use pgcopydb_operator.Controller.Budget.{fail_budget, record_verdict, decide, settle_budget}

module _ (k : ConditionApi) (L : IsLawful k) (api : Api) where
  pub fail_budget-Still : Keeps (Still k) (fail_budget k)
  unfolding fail_budget
  fail_budget-Still = search (still_rules, fail-Still) depth 14

  record_verdict-Still : (e : Exemption) → Keeps (Still k) (record_verdict k api e)
  unfolding record_verdict
  record_verdict-Still e = search (still_rules, patch_status_locked-Still) depth 14

  pub decide-Still : (e : Exemption) → Keeps (Still k) (decide k api e)
  unfolding decide
  decide-Still e = search (still_rules, record_verdict-Still, fail_budget-Still) depth 14

  pub settle_budget-Still : Keeps (Still k) (settle_budget k api)
  unfolding settle_budget
  settle_budget-Still = search (still_rules, patch_status_locked-Still, fail_budget-Still) depth 14
