-- ===== src/Controller/Rehearsal/Run/Once.antt =====
-- A rehearsal runs once per arming.
use pgcopydb_operator.Prelude.{◌≡◌, sym, subst, not, Bool, true, if◌then◌else◌}
use pgcopydb_operator.Migration.{is_automatic}
use pgcopydb_operator.Migration.Conditions.{ConditionApi}
use pgcopydb_operator.Platform.Types.{Api}
use pgcopydb_operator.Platform.Exec.{Pass, Exec, skip, when, ◌>>=◌}
use pgcopydb_operator.Platform.Exec.Keeps.{Keeps}
use pgcopydb_operator.Controller.Frame.{created, Still, still_rules}
use pgcopydb_operator.Controller.Rehearsal.{rehearsal_requested, armed_in, cancel_rehearsal}
use pgcopydb_operator.Controller.Rehearsal.Run.{
  is_cutting_over, is_streaming, disarm, observe_rehearsal, try_start, not_started,
  reconcile_rehearsal,
}
use pgcopydb_operator.Controller.Rehearsal.Calm.{cancel_rehearsal-Still}
use pgcopydb_operator.Controller.Rehearsal.Run.Calm.{disarm-Still, observe_rehearsal-Still}

module _ (k : ConditionApi) (api : Api) where
  -- The branches of reconcileRehearsal.
  branches : (asked cutting armed : Bool) → Exec (Unit {0}) → Exec (Unit {0})
  branches asked cutting armed rest =
      if not asked
      then when armed (disarm api)
      else if cutting
      then cancel_rehearsal api
      else if armed
      then observe_rehearsal api
      else rest

  unarmed : Pass → Exec (Unit {0})
  unarmed s =
      if not (is_streaming api s.m.status.phase)
      then skip
      else if is_automatic s.m.spec.cutover.mode
      then not_started api
      else try_start api

  armed-Still : (a b : Bool) (m : Exec (Unit {0})) → Keeps (Still k) (branches a b true m)
  unfolding branches
  armed-Still a b m =
      search (still_rules, disarm-Still, cancel_rehearsal-Still, observe_rehearsal-Still) depth 14

  -- Once a rehearsal is armed, no pass of reconcileRehearsal creates a Job, in any phase and
  -- whatever became of the run: a second run needs a disarmed status first.
  pub reconcile_rehearsal-armed :
      (s : Pass)
      → armed_in s.m.status.rehearsal ≡ true
      → created (reconcile_rehearsal api s).1 ≡ created s
  unfolding reconcile_rehearsal branches unarmed ◌>>=◌
  reconcile_rehearsal-armed s h =
      subst
        (λ c.
          created
            (branches (rehearsal_requested s.m) (is_cutting_over api s.m.status.phase) c (unarmed s)
              s).1
          ≡ created s)
        (sym h)
        (((armed-Still (rehearsal_requested s.m) (is_cutting_over api s.m.status.phase)
            (unarmed s)).at
          s).creates)
