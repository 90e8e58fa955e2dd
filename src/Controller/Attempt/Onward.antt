-- ===== src/Controller/Attempt/Onward.antt =====
-- Starting and losing an attempt keeps the spec and a recorded endpos, and creates the worker of
-- the next attempt at most.
use pgcopydb_operator.Prelude.{ℕ, Bool, false}
use pgcopydb_operator.Migration.Name.{JobName}
use pgcopydb_operator.Migration.Conditions.{ConditionApi, IsLawful}
use pgcopydb_operator.Platform.Types.{not_found, Result, ok, err, Job, WorkerLog, Api}
use pgcopydb_operator.Platform.Exec.Keeps.{Keeps}
use pgcopydb_operator.Controller.Onward.{
  Quiet, Onward, Calm-Quiet, Still-Quiet, quiet_rules, onward_rules,
}
use pgcopydb_operator.Controller.Frame.{calm_rules}
use pgcopydb_operator.Controller.Launch.{
  Launch, Launches, Launch-Quiet, Launch-if, Launches-Quiet, Launches-if, Launch-left, Launch-right,
  Launches-gets, Launches-left, create_named-Onward, create_named-Launch,
}
use pgcopydb_operator.Controller.Jobs.Calm.{delete_job_ok-Still}
use pgcopydb_operator.Controller.Status.Calm.{update_status-Still}
use pgcopydb_operator.Controller.Hold.Calm.{fail-Still, set_hold-Still}
use pgcopydb_operator.Controller.Budget.Calm.{fail_budget-Still, settle_budget-Still}
use pgcopydb_operator.Controller.Rehearsal.Calm.{cancel_rehearsal-Still}
use pgcopydb_operator.Controller.Gate.Calm.{retry_gate-Calm}
use pgcopydb_operator.Controller.Reown.Calm.{reown_job_exists-Still}
use pgcopydb_operator.Controller.Finish.Onward.{finish_clone-Quiet, finish_follow-Quiet}
use pgcopydb_operator.Controller.Attempt.{
  Cause, terminal, start_over, retryable, record_attempt, create_worker, gated_attempt,
  unrecorded_checked, unrecorded, start_attempt, next_attempt, hand_to_gate, by_cause,
  handle_failed_job,
}

module _ (k : ConditionApi) (L : IsLawful k) (api : Api) where
  pub record_attempt-Quiet : (n : JobName) (b : Bool) → Keeps Quiet (record_attempt k api n b)
  unfolding record_attempt
  record_attempt-Quiet n b =
      search (quiet_rules, Still-Quiet k, update_status-Still, delete_job_ok-Still) depth 24

  create_worker-Onward : (n : ℕ) → Keeps Onward (create_worker k api n)
  unfolding create_worker
  create_worker-Onward n = search (onward_rules, create_named-Onward, record_attempt-Quiet) depth 16

  create_worker-Launch : (n : ℕ) → Keeps (Launch n) (create_worker k api n)
  unfolding create_worker
  create_worker-Launch n =
      search (quiet_rules, Launch-right, Launch-left, create_named-Launch, record_attempt-Quiet)
        depth 16

  gated_attempt-Launch : (n : ℕ) → Keeps (Launch n) (gated_attempt k api n)
  unfolding gated_attempt
  gated_attempt-Launch n =
      search
        (
          quiet_rules,
          Launch-left,
          Launch-if,
          Launch-Quiet,
          Calm-Quiet k,
          Still-Quiet k,
          retry_gate-Calm,
          settle_budget-Still,
          create_worker-Launch,
        )
        depth 16

  unrecorded_checked-Launch : (n : ℕ) → Keeps (Launch n) (unrecorded_checked k api n)
  unfolding unrecorded_checked
  unrecorded_checked-Launch n =
      search
        (
          quiet_rules,
          Launch-left,
          Launch-if,
          Launch-Quiet,
          Still-Quiet k,
          fail_budget-Still,
          update_status-Still,
          gated_attempt-Launch,
          create_worker-Launch,
        )
        depth 16

  unrecorded-Launch : (n : ℕ) (r : Result Job) → Keeps (Launch n) (unrecorded k api n r)
  unfolding unrecorded
  unrecorded-Launch n (ok job) = Launch-Quiet n _ (record_attempt-Quiet job.name false)
  unrecorded-Launch n (err not_found) = unrecorded_checked-Launch n
  unrecorded-Launch n (err _) = search (quiet_rules, Launch-Quiet)

  start_attempt-Launches : Keeps Launches (start_attempt k api)
  unfolding start_attempt
  start_attempt-Launches =
      search
        (
          quiet_rules, Launches-gets, Launch-left, Launch-if, unrecorded_checked-Launch,
          unrecorded-Launch,
        )
        depth 16

  pub next_attempt-Launches : Keeps Launches (next_attempt k api)
  unfolding next_attempt
  next_attempt-Launches =
      search
        (
          calm_rules,
          Launches-left k,
          Launches-if,
          Launches-Quiet,
          cancel_rehearsal-Still,
          reown_job_exists-Still,
          finish_clone-Quiet,
          finish_follow-Quiet,
          start_attempt-Launches,
        )
        depth 16

  gated_attempt-Onward : (n : ℕ) → Keeps Onward (gated_attempt k api n)
  unfolding gated_attempt
  gated_attempt-Onward n =
      search
        (
          onward_rules,
          Calm-Quiet k,
          Still-Quiet k,
          retry_gate-Calm,
          settle_budget-Still,
          create_worker-Onward,
        )
        depth 16

  unrecorded_checked-Onward : (n : ℕ) → Keeps Onward (unrecorded_checked k api n)
  unfolding unrecorded_checked
  unrecorded_checked-Onward n =
      search
        (
          onward_rules,
          Still-Quiet k,
          fail_budget-Still,
          update_status-Still,
          gated_attempt-Onward,
          create_worker-Onward,
        )
        depth 16

  unrecorded-Onward : (n : ℕ) (r : Result Job) → Keeps Onward (unrecorded k api n r)
  unfolding unrecorded
  unrecorded-Onward n (ok job) = search (onward_rules, record_attempt-Quiet)
  unrecorded-Onward n (err not_found) = unrecorded_checked-Onward n
  unrecorded-Onward n (err _) = search onward_rules

  start_attempt-Onward : Keeps Onward (start_attempt k api)
  unfolding start_attempt
  start_attempt-Onward =
      search (onward_rules, unrecorded_checked-Onward, unrecorded-Onward) depth 16

  pub next_attempt-Onward : Keeps Onward (next_attempt k api)
  unfolding next_attempt
  next_attempt-Onward =
      search
        (
          onward_rules,
          Still-Quiet k,
          cancel_rehearsal-Still,
          reown_job_exists-Still,
          finish_clone-Quiet,
          finish_follow-Quiet,
          start_attempt-Onward,
        )
        depth 16

  hand_to_gate-Quiet : (j : Job) (w : WorkerLog) → Keeps Quiet (hand_to_gate k api j w)
  unfolding hand_to_gate
  hand_to_gate-Quiet j w =
      search (quiet_rules, Still-Quiet k, set_hold-Still, update_status-Still) depth 16

  by_cause-Quiet : (j : Job) (w : WorkerLog) (c : Cause) → Keeps Quiet (by_cause k api j w c)
  unfolding by_cause
  by_cause-Quiet j w (terminal r) =
      search (quiet_rules, Still-Quiet k, fail-Still, update_status-Still) depth 16
  by_cause-Quiet j w start_over = search (quiet_rules, hand_to_gate-Quiet) depth 16
  by_cause-Quiet j w retryable = search (quiet_rules, hand_to_gate-Quiet) depth 16

  -- Handling a failed worker, on every branch and whatever its log says, creates no worker in the
  -- same pass, leaves the spec as it was, and where an endpos is recorded leaves that position and
  -- does not ask the source to set it again.
  pub handle_failed_job-Quiet : (j : Job) → Keeps Quiet (handle_failed_job k api j)
  unfolding handle_failed_job
  handle_failed_job-Quiet j =
      search (quiet_rules, Still-Quiet k, cancel_rehearsal-Still, by_cause-Quiet) depth 18
