-- ===== src/Controller/Hold.antt =====
-- The retry hold and the terminal failure (retry_gate.go, migration_controller.go).
pub mod Calm
use pgcopydb_operator.Prelude.{
  ℕ, ◌+◌, Bool, true, false, ◌&&◌, ◌||◌, Option, none, some, if◌then◌else◌, not,
}
use pgcopydb_operator.Prelude.Word.{add32}
use pgcopydb_operator.Migration.{
  Migration, Phase, failed, suspended, streaming, cutting_over, cloning, Time, ReplicationStatus,
}
use pgcopydb_operator.Migration.Conditions.{
  ConditionType, cutover_complete, retry_held, Reason, gate_probing, worker_pod_remains,
  hold_migration_failed, same_reason, Verdict, yes_true, no_false, verdict_true, Condition,
  ConditionApi,
}
use pgcopydb_operator.Platform.Types.{Api}
use pgcopydb_operator.Platform.Exec.{Pass, Exec, pure, gets, skip, modify, ◌>>=◌, ◌>>◌, when}
use pgcopydb_operator.Sentinel.{endpos_set}
use pgcopydb_operator.Controller.Status.{
  condition, put_condition, set_condition, holds, set_phase, emit, current_time,
}

abbrev pub has_endpos : Option ReplicationStatus → Bool
has_endpos none = false
has_endpos (some r) = endpos_set r.endpos

module _ (k : ConditionApi) where
  -- attemptPhase
  unfoldable pub attempt_phase : Migration → Phase
  attempt_phase m =
      if has_endpos m.status.replication || holds k m cutover_complete
      then cutting_over
      else if holds k m ConditionType.streaming
      then streaming
      else cloning

  abbrev is_held : Option Condition → Bool
  is_held none = false
  is_held (some c) = verdict_true c.status

  -- `!wasHeld || cur.Reason != reason`
  abbrev news : Reason → Option Condition → Bool
  news r none = true
  news r (some c) = not (verdict_true c.status) || not (same_reason c.reason r)

  abbrev is_suspended : Phase → Bool
  is_suspended suspended = true
  is_suspended _ = false

  -- The condition that setHold writes: a new hold is dated by the reconciler's clock.
  abbrev hold_condition : Migration → Reason → Bool → Time → Condition
  hold_condition m r was_held now = record (condition k m retry_held yes_true r) {
    last_transition = if was_held then 0 else now;
  }

  -- The end of setHold: a resumed Migration that holds no longer reads Suspended.
  abbrev resume_phase : Migration → Migration
  resume_phase m =
      if is_suspended m.status.phase && not m.spec.suspend
      then record m { status = record m.status { phase = attempt_phase m } }
      else m

  module _ (api : Api) where
    -- setHold
    unfoldable pub set_hold : Reason → Exec (Unit {0})
    unfolding ◌>>=◌
    set_hold r = do
      cur ← gets (λ s. k.find s.m.status.conditions retry_held)
      when (not (same_reason r gate_probing) && news r cur) (emit true Reason.retry_held)
      now ← current_time api
      modify (λ m. put_condition k (hold_condition m r (is_held cur) now) m)
      modify resume_phase

    -- The reason that probing keeps: one that an earlier probe gave.
    kept_reason : Option Condition → Reason
    kept_reason none = gate_probing
    kept_reason (some c) =
        if verdict_true c.status
          && not (same_reason c.reason gate_probing)
          && not (same_reason c.reason worker_pod_remains)
        then c.reason
        else gate_probing

    -- probing
    unfoldable pub probing : Exec (Unit {0})
    unfolding kept_reason set_hold ◌>>=◌
    probing = do
      cur ← gets (λ s. k.find s.m.status.conditions retry_held)
      set_hold (kept_reason cur)

  -- endHold
  unfoldable pub end_hold : Reason → Exec (Unit {0})
  unfolding ◌>>=◌
  end_hold r = do
    held ← gets (λ s. holds k s.m retry_held)
    when held (set_condition k retry_held no_false r)

  -- fail
  unfoldable pub fail : Reason → Exec (Unit {0})
  unfolding end_hold ◌>>=◌
  fail r = do
    set_phase failed
    set_condition k ConditionType.failed yes_true r
    end_hold hold_migration_failed
    emit true r
