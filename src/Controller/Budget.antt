-- ===== src/Controller/Budget.antt =====
-- The retry budget and the verdict on a failed attempt (retry_gate_budget.go, retry_gate.go).
pub mod Calm
pub mod Bounds
pub mod Settled
use pgcopydb_operator.Prelude.{
  ℕ, ◌+◌, ◌*◌, Bool, true, false, ◌&&◌, ◌||◌, Option, none, some, if◌then◌else◌, not, ltb, leb,
  is_some, ◌==◌,
}
use pgcopydb_operator.Prelude.Word.{add32, sub32, le32, lt64}
use pgcopydb_operator.Migration.{
  Migration, MigrationStatus, RetryGateStatus, Exemption, undecided, exempt, counted, is_undecided,
  is_counted, is_exempt, Phase, cloning, Time, second,
}
use pgcopydb_operator.Migration.Conditions.{
  clone_completed, Reason, clone_failed, backoff_limit_exceeded, no_false, ConditionApi,
}
use pgcopydb_operator.Platform.Types.{GateCensus, Api}
use pgcopydb_operator.Platform.Exec.{
  Pass, Exec, pure, gets, skip, status, modify, ◌>>=◌, ◌>>◌, when,
}
use pgcopydb_operator.Controller.Status.{
  set_condition, holds, tables_empty_seen, patch_status_locked,
}
use pgcopydb_operator.Controller.Hold.{fail, attempt_phase}

-- verdictDeadline and syncRepThreshold
abbrev pub verdict_deadline : Time
verdict_deadline = 900 * second

abbrev pub sync_rep_threshold : Time
sync_rep_threshold = 30 * second

-- countedAttempts
abbrev pub counted_attempts : Migration → ℕ
counted_attempts m = sub32 m.status.attempts m.status.exempt_attempts

-- budgetSpent
unfoldable pub budget_spent : Migration → Bool
budget_spent m = le32 (add32 m.spec.backoff_limit 1) (counted_attempts m)

-- time.Unix(s, 0), in nanoseconds since the zero time
abbrev pub unix_time : ℕ → Time
unix_time s = (s + 62135596800) * second

-- exemptionVerdict; `!After(failedAt - threshold)` with the threshold moved to the other side
unfoldable pub exemption_verdict : GateCensus → Time → Exemption
exemption_verdict c failed_at =
    if c.named
      && lt64 0 c.sync_rep
      && lt64 0 c.sync_rep_since
      && leb (unix_time c.sync_rep_since + sync_rep_threshold) failed_at
    then exempt
    else counted

-- verdictOverdue
unfoldable pub verdict_overdue : Option RetryGateStatus → Time → Bool
verdict_overdue none now = false
verdict_overdue (some rg) now =
    is_undecided rg.exemption && leb (rg.failed_at + verdict_deadline) now

abbrev pub failed_this_attempt : ℕ → Option RetryGateStatus → Bool
failed_this_attempt n none = false
failed_this_attempt n (some rg) = rg.failed_attempt == n

-- onFailurePath
abbrev pub on_failure_path : Migration → Bool
on_failure_path m = failed_this_attempt m.status.attempts m.status.retry_gate

abbrev pub undecided_in : Option RetryGateStatus → Bool
undecided_in none = false
undecided_in (some rg) = is_undecided rg.exemption

abbrev pub exempt_in : Option RetryGateStatus → Bool
exempt_in none = false
exempt_in (some rg) = is_exempt rg.exemption

abbrev is_cloning : Phase → Bool
is_cloning cloning = true
is_cloning _ = false

abbrev pub seen_in : Option RetryGateStatus → Bool
seen_in none = false
seen_in (some rg) = rg.clone_done_seen

-- m.Status.RetryGate.Exemption = verdict. The callers have tested that the gate is not nil.
abbrev pub decided : Exemption → Option RetryGateStatus → Option RetryGateStatus
decided e none = none
decided e (some rg) = some (record rg { exemption = e })

abbrev pub exempt_increment : Exemption → ℕ → ℕ
exempt_increment exempt n = add32 n 1
exempt_increment counted n = n
exempt_increment undecided n = n

module _ (k : ConditionApi) where
  -- copyDoneForGate
  unfoldable pub copy_done_for_gate : Migration → Bool
  copy_done_for_gate m =
      holds k m clone_completed
      || tables_empty_seen k m
      || not (is_cloning (attempt_phase k m))
      || seen_in m.status.retry_gate

  -- failBudget
  unfoldable pub fail_budget : Exec (Unit {0})
  unfolding ◌>>=◌
  fail_budget = do
    recorded ← gets (λ s. is_some s.m.status.retry_gate)
    when recorded (set_condition k clone_completed no_false clone_failed)
    fail k backoff_limit_exceeded

  module _ (api : Api) where
    -- recordVerdict
    unfoldable pub record_verdict : Exemption → Exec (Unit {0})
    unfolding ◌>>=◌
    record_verdict verdict = do
      status (λ st. record st {
        retry_gate = decided verdict st.retry_gate;
        exempt_attempts = exempt_increment verdict st.exempt_attempts;
      })
      patch_status_locked api

    -- decide; true reports that it failed the Migration
    unfoldable pub decide : Exemption → Exec Bool
    unfolding record_verdict fail_budget ◌>>=◌
    decide verdict = do
      spent ← gets (λ s. is_counted verdict && budget_spent s.m)
      when spent fail_budget
      record_verdict verdict
      pure spent

    -- settleBudget
    unfoldable pub settle_budget : Exec Bool
    unfolding fail_budget ◌>>=◌
    settle_budget = do
      pending ← gets (λ s. on_failure_path s.m && undecided_in s.m.status.retry_gate)
      when pending (status (λ st. record st { retry_gate = decided counted st.retry_gate }))
      spent ← gets (λ s. budget_spent s.m)
      when spent fail_budget
      patch_status_locked api
      pure spent
