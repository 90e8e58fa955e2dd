-- ===== src/Controller/Status.antt =====
-- Writing the status, and the latches that live in condition reasons (migration_controller.go,
-- follow.go). The metrics gauges that go with a write are not modelled.
pub mod Calm
use pgcopydb_operator.Prelude.{
  ℕ, ◌+◌, Bool, true, false, ◌&&◌, ◌||◌, Option, none, some, List, [], ◌∷◌, if◌then◌else◌, not,
}
use pgcopydb_operator.Migration.{
  Migration, Phase, RehearsalStatus, Time, is_running, Lsn, no_lsn, null_lsn, lsn,
  ReplicationStatus,
}
use pgcopydb_operator.Migration.Conditions.{
  ConditionType, clone_completed, caught_up, Reason, copying_data, tables_empty_on_target,
  snapshot_lost, confirming_catch_up, same_reason, Verdict, verdict_true, verdict_false, Condition,
  ConditionApi,
}
use pgcopydb_operator.Platform.Types.{Err, Result, ok, err, Call, patch_status, event, Api}
use pgcopydb_operator.Platform.Exec.{
  Pass, Exec, pure, raise, lift, gets, ask, skip, say, modify, status, raise_some, ◌>>=◌, ◌>>◌,
}

module _ (k : ConditionApi) where
  -- The condition that setCondition hands to SetStatusCondition: no transition time of its own.
  abbrev pub condition : Migration → ConditionType → Verdict → Reason → Condition
  condition m t v r = record {
    type = t;
    status = v;
    reason = r;
    observed_generation = m.generation;
    last_transition = 0;
  }

  abbrev pub put_condition : Condition → Migration → Migration
  put_condition c m = record m {
    status = record m.status { conditions = k.set m.status.conditions c };
  }

  -- setCondition
  unfoldable pub set_condition : ConditionType → Verdict → Reason → Exec (Unit {0})
  unfolding ◌>>=◌
  set_condition t v r = modify (λ m. put_condition (condition m t v r) m)

  abbrev pub holds : Migration → ConditionType → Bool
  holds m t = k.is_true m.status.conditions t

  -- A False condition with this reason: the shape of the latches.
  abbrev latched : Reason → Option Condition → Bool
  latched r none = false
  latched r (some c) = verdict_false c.status && same_reason c.reason r

  -- copySeen, tablesEmptySeen, snapshotLost
  abbrev pub copy_seen : Migration → Bool
  copy_seen m = latched copying_data (k.find m.status.conditions clone_completed)

  abbrev pub tables_empty_seen : Migration → Bool
  tables_empty_seen m = latched tables_empty_on_target (k.find m.status.conditions clone_completed)

  abbrev pub snapshot_lost_seen : Migration → Bool
  snapshot_lost_seen m = latched snapshot_lost (k.find m.status.conditions clone_completed)

  abbrev pub below_latch : Option Condition → Bool
  below_latch none = false
  below_latch (some c) = verdict_true c.status || same_reason c.reason confirming_catch_up

  -- lagSeenBelow
  abbrev pub lag_seen_below : Migration → Bool
  lag_seen_below m = below_latch (k.find m.status.conditions caught_up)

abbrev pub set_phase : Phase → Exec (Unit {0})
set_phase p = status (λ st. record st { phase = p })

abbrev pub emit : (warning : Bool) → Reason → Exec (Unit {0})
emit w r = say (event w r)

module _ (api : Api) where
  abbrev pub current_time : Exec Time
  current_time = ask api.now

  -- The patch of the status against `base`, and the API's answer to it.
  unfoldable pub patch : Bool → Exec (Unit {0})
  unfolding ◌>>=◌
  patch locked = do
    base ← gets (λ s. s.base)
    m ← gets (λ s. s.m)
    failed ← ask api.patch_error
    say (patch_status base m locked)
    raise_some failed

  -- m.Status.ObservedGeneration = m.Generation
  unfoldable pub observe_generation : Exec (Unit {0})
  observe_generation =
      modify (λ m. record m { status = record m.status { observed_generation = m.generation } })

  -- updateStatus
  unfoldable pub update_status : Exec (Unit {0})
  unfolding patch observe_generation ◌>>=◌
  update_status = do observe_generation; patch false

  -- m.DeepCopyInto(base)
  unfoldable pub rebase : Exec (Unit {0})
  rebase s = (ok tt, record s { base = s.m })

  -- patchStatusLocked
  unfoldable pub patch_status_locked : Exec (Unit {0})
  unfolding patch observe_generation rebase ◌>>=◌
  patch_status_locked = do observe_generation; patch true; rebase
