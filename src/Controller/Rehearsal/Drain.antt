-- ===== src/Controller/Rehearsal/Drain.antt =====
-- The wait of a drain for the last rehearsal pod (rehearsal.go, drainWaitsForRehearsal).
pub mod Calm
use pgcopydb_operator.Prelude.{Bool, true, false, Option, none, some, if◌then◌else◌, not}
use pgcopydb_operator.Migration.{Migration}
use pgcopydb_operator.Migration.Conditions.{
  cutover_complete, rehearsal_pod_remains, same_reason, verdict_true, unknown, Condition,
  ConditionApi,
}
use pgcopydb_operator.Platform.Types.{Pod, Api}
use pgcopydb_operator.Platform.Exec.{Pass, Exec, pure, gets, skip, modify, ◌>>=◌, ◌>>◌, when}
use pgcopydb_operator.Controller.Status.{set_condition, emit}
use pgcopydb_operator.Controller.Rehearsal.{rehearsal_pod}

module _ (k : ConditionApi) (api : Api) where
  abbrev cutover_done : Option Condition → Bool
  cutover_done none = false
  cutover_done (some c) = verdict_true c.status

  abbrev waited : Option Condition → Bool
  waited none = false
  waited (some c) = same_reason c.reason rehearsal_pod_remains

  -- The tail of drainWaitsForRehearsal, with the pod that has not ended.
  unfoldable pub hold_drain : Bool → Option Pod → Exec Bool
  unfolding ◌>>=◌
  hold_drain had_waited none = do
    when had_waited (
        modify (λ m. record m {
          status = record m.status { conditions = k.remove m.status.conditions cutover_complete };
        }))
    pure false
  hold_drain had_waited (some pod) = do
    when (not had_waited) (emit true rehearsal_pod_remains)
    set_condition k cutover_complete unknown rehearsal_pod_remains
    pure true

  -- drainWaitsForRehearsal
  unfoldable pub drain_waits_for_rehearsal : Exec Bool
  unfolding hold_drain ◌>>=◌
  drain_waits_for_rehearsal = do
    cur ← gets (λ s. k.find s.m.status.conditions cutover_complete)
    if cutover_done cur then pure false else do pod ← rehearsal_pod api; hold_drain (waited cur) pod
