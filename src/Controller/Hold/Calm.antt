-- ===== src/Controller/Hold/Calm.antt =====
-- A hold and a failure leave the core alone.
use pgcopydb_operator.Prelude.{arith}
use pgcopydb_operator.Migration.{Migration}
use pgcopydb_operator.Migration.Conditions.{ConditionApi, IsLawful, Reason}
use pgcopydb_operator.Platform.Types.{Api}
use pgcopydb_operator.Platform.Exec.Keeps.{Keeps}
use pgcopydb_operator.Controller.Frame.{Still, SameCore, modify-Still, put-SameCore, still_rules}
use pgcopydb_operator.Controller.Hold.{set_hold, resume_phase, probing, end_hold, fail}

module _ (k : ConditionApi) (L : IsLawful k) (api : Api) where
  resume_phase-SameCore : (m : Migration) → SameCore k m (resume_phase k m)
  resume_phase-SameCore m = record {
    spec = ground arith;
    attempts = ground arith;
    replication = ground arith;
    complete = ground arith;
    cutover = ground arith;
  }

  pub set_hold-Still : (r : Reason) → Keeps (Still k) (set_hold k api r)
  unfolding set_hold
  set_hold-Still r =
      search (still_rules, modify-Still, put-SameCore, resume_phase-SameCore) depth 14

  pub probing-Still : Keeps (Still k) (probing k api)
  unfolding probing
  probing-Still = search (still_rules, set_hold-Still) depth 14

  pub end_hold-Still : (r : Reason) → Keeps (Still k) (end_hold k r)
  unfolding end_hold
  end_hold-Still r = search still_rules depth 14

  pub fail-Still : (r : Reason) → Keeps (Still k) (fail k r)
  unfolding fail
  fail-Still r = search (still_rules, end_hold-Still) depth 14
