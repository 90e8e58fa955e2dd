-- ===== src/Controller/Gate.antt =====
-- The retry gate (retry_gate.go): attempt n waits until the previous worker's pod has ended and a
-- fresh probe of the target passed.
pub mod Calm
pub mod Opening
pub mod Safety
pub mod Cleared
use pgcopydb_operator.Prelude.{
  ℕ, ◌+◌, ◌-◌, ◌*◌, Bool, true, false, ◌&&◌, ◌||◌, Option, none, some, List, [], ◌∷◌, if◌then◌else◌,
  not, is_some, ltb, min,
}
use pgcopydb_operator.Prelude.Word.{sub32}
use pgcopydb_operator.Migration.{Migration, Time, second, RetryGateStatus, Exemption, counted}
use pgcopydb_operator.Migration.Name.{JobName, worker, gate, is_gate_name}
use pgcopydb_operator.Migration.Conditions.{Reason, worker_pod_remains, probe_failed, ConditionApi}
use pgcopydb_operator.Platform.Types.{
  Err, not_found, Result, ok, err, Job, Pod, GateCensus, GateResult, GateInputs, commit_absent,
  by_job, background, Next, after, finished, Api,
}
use pgcopydb_operator.Platform.Exec.{
  Pass, Exec, pure, raise, lift, gets, ask, skip, ◌>>=◌, ◌>>◌, when, raise_some, for_each,
}
use pgcopydb_operator.Controller.Jobs.{
  job_finished, job_finished_at, Finish, is_done, is_success, get_job_uncached, delete_job_ok,
  create_named, unless_exists,
}
use pgcopydb_operator.Controller.Status.{current_time, update_status}
use pgcopydb_operator.Controller.Hold.{set_hold, probing}
use pgcopydb_operator.Controller.Budget.{
  on_failure_path, undecided_in, verdict_overdue, exemption_verdict, decide,
}
use pgcopydb_operator.Controller.Probe.{gate_inputs_for, same_inputs, passed, hold}
use pgcopydb_operator.Controller.Probe.Log.{parse_gate_log}
use pgcopydb_operator.Controller.Rehearsal.{find_pod, live_pod, rehearsal_pod}

-- retryGateInterval and gatePassFreshness
abbrev pub retry_gate_interval : Time
retry_gate_interval = 30 * second

abbrev pub gate_pass_freshness : Time
gate_pass_freshness = 60 * second

-- What the gate answers: when to come back, and whether the worker may start.
abbrev pub Gated : Type 0
Gated = Next × Bool

abbrev held : Next
held = after retry_gate_interval

abbrev failed_at_in : Option RetryGateStatus → Time
failed_at_in none = 0
failed_at_in (some rg) = rg.failed_at

module _ (k : ConditionApi) (api : Api) where
  -- `return held, false, r.updateStatus(ctx, m, base)` after a hold.
  held_with : Next → Exec Gated
  unfolding ◌>>=◌
  held_with next = do update_status api; pure (next, false)

  keep_probing : Exec Gated
  unfolding held_with ◌>>=◌
  keep_probing = do probing k api; held_with held

  -- createGateJob
  create_gate_job : ℕ → Exec (Unit {0})
  unfolding ◌>>=◌
  create_gate_job attempt = do
    m ← gets (λ s. s.m)
    raise_some (api.build_error m (gate attempt))
    failed ← create_named api (gate attempt)
    raise_some (unless_exists failed)

  -- How long a failed probe stays, and the delete when its time is over.
  pace : Job → Time → Exec Next
  unfolding ◌>>=◌
  pace job now =
      if ltb now (job_finished_at job + retry_gate_interval)
      then pure (after (min (job_finished_at job + retry_gate_interval - now) retry_gate_interval))
      else do delete_job_ok api job.name background; pure held

  -- The reason of a hold after a finished probe; an unreadable log and a logged pass are faults of
  -- the probe.
  abbrev or_probe_failed : Option Reason → Reason
  or_probe_failed none = probe_failed
  or_probe_failed (some r) = r

  hold_reason : Bool → GateResult → GateInputs → Reason
  hold_reason unreadable g i = if unreadable then probe_failed else or_probe_failed (hold g i)

  -- The verdict that a census gives, where one is still due.
  abbrev due_verdict : Migration → Option GateCensus → Option Exemption
  due_verdict m none = none
  due_verdict m (some c) =
      if on_failure_path m && undecided_in m.status.retry_gate
      then some (exemption_verdict c (failed_at_in m.status.retry_gate))
      else none

  decide_due : Option Exemption → Exec Bool
  decide_due none = pure false
  decide_due (some v) = decide k api v

  -- The rest of judgeProbe, for a probe that did not pass.
  unfoldable pub judge_failed : Job → Bool → Bool → GateResult → Exec Gated
  unfolding keep_probing held_with pace hold_reason decide_due ◌>>=◌
  judge_failed job current unreadable g = do
    inputs ← gets (λ s. gate_inputs_for k s.m)
    due ← gets (λ s. due_verdict s.m g.census)
    now ← current_time api
    failed ← decide_due due
    if failed
        then pure (finished, false)
        else if not current
        then (do delete_job_ok api job.name background; keep_probing)
        else (do
          set_hold k api (hold_reason unreadable g inputs)
          next ← pace job now
          held_with next)

  -- Whether a finished probe may count as a pass by its age and its inputs.
  abbrev fresh : Job → GateInputs → Time → Bool
  fresh job i now =
      same_inputs job.inputs i && not (ltb (job_finished_at job + gate_pass_freshness) now)

  -- judgeProbe
  unfoldable pub judge_probe : Job → Exec Gated
  unfolding keep_probing held_with judge_failed ◌>>=◌
  judge_probe job = do
    now ← current_time api
    inputs ← gets (λ s. gate_inputs_for k s.m)
    let succeeded = is_success (job_finished job.conditions)
    if succeeded && not (fresh job inputs now)
        then (do delete_job_ok api job.name background; keep_probing)
        else (do
          failed ← ask (λ t. api.log_error t job.name)
          raw ← ask (λ t. api.gate_log t job.name)
          let unreadable = not api.has_logs || is_some failed
          let g = parse_gate_log (if api.has_logs then raw else [])
          if succeeded && not unreadable && passed g inputs
              then pure (finished, true)
              else judge_failed job (same_inputs job.inputs inputs) unreadable g)

  -- The switch on the answer for the probe Job.
  unfoldable pub probe_job : ℕ → Result Job → Exec Gated
  unfolding keep_probing create_gate_job held_with judge_probe ◌>>=◌
  probe_job attempt (err not_found) = do create_gate_job attempt; keep_probing
  probe_job attempt (err e) = raise e
  probe_job attempt (ok job) =
      if job.deleting
      then keep_probing
      else if is_done (job_finished job.conditions)
      then judge_probe job
      else (do
        stuck ← ask (λ t. api.pod_wait_detail t job.name)
        if stuck then set_hold k api probe_failed else probing k api
        held_with held)

  -- previousWorkerPod, then rehearsalPod.
  unfoldable pub blocking_pod : ℕ → Exec (Option Pod)
  unfolding ◌>>=◌
  blocking_pod attempt = do
    previous ← find_pod api (by_job (worker (sub32 attempt 1))) live_pod
    if is_some previous then pure previous else rehearsal_pod api

  -- retryGate after the deadline check.
  unfoldable pub gate_pods : ℕ → Exec Gated
  unfolding held_with probe_job blocking_pod ◌>>=◌
  gate_pods attempt = do
    pod ← blocking_pod attempt
    if is_some pod
        then (do set_hold k api worker_pod_remains; held_with held)
        else (do got ← get_job_uncached api (gate attempt); probe_job attempt got)

  -- retryGate
  unfoldable pub retry_gate : ℕ → Exec Gated
  unfolding gate_pods ◌>>=◌
  retry_gate attempt = do
    now ← current_time api
    overdue ← gets (λ s. on_failure_path s.m && verdict_overdue s.m.status.retry_gate now)
    failed ← if overdue then decide k api counted else pure false
    if failed then pure (finished, false) else gate_pods attempt

  -- deleteGateJob
  abbrev pub delete_gate_job : ℕ → Exec (Unit {0})
  delete_gate_job attempt = delete_job_ok api (gate attempt) background

  -- deleteStrayProbes
  delete_probe : Job → Exec (Unit {0})
  delete_probe job = when (is_gate_name job.name) (delete_job_ok api job.name background)

  unfoldable pub delete_stray_probes : Exec (Unit {0})
  unfolding delete_probe ◌>>=◌
  delete_stray_probes = do got ← ask api.list_jobs; jobs ← lift got; for_each delete_probe jobs
