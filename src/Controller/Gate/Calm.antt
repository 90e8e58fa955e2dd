-- ===== src/Controller/Gate/Calm.antt =====
-- The retry gate creates no worker.
use pgcopydb_operator.Prelude.{ℕ, Bool, Option, none, some}
use pgcopydb_operator.Migration.{Time, Exemption}
use pgcopydb_operator.Migration.Conditions.{ConditionApi, IsLawful}
use pgcopydb_operator.Platform.Types.{not_found, Result, ok, err, Job, GateResult, Next, Api}
use pgcopydb_operator.Platform.Exec.Keeps.{Keeps}
use pgcopydb_operator.Controller.Frame.{Still, Calm, still_rules, calm_rules}
use pgcopydb_operator.Controller.Jobs.Calm.{delete_job_ok-Still, create_named-Calm}
use pgcopydb_operator.Controller.Status.Calm.{update_status-Still}
use pgcopydb_operator.Controller.Hold.Calm.{set_hold-Still, probing-Still}
use pgcopydb_operator.Controller.Budget.Calm.{decide-Still}
use pgcopydb_operator.Controller.Rehearsal.Calm.{find_pod-Still, rehearsal_pod-Still}
use pgcopydb_operator.Controller.Gate.{
  held_with, keep_probing, create_gate_job, pace, decide_due, judge_failed, judge_probe, probe_job,
  blocking_pod, gate_pods, retry_gate, delete_probe, delete_stray_probes,
}

module _ (k : ConditionApi) (L : IsLawful k) (api : Api) where
  held_with-Still : (n : Next) → Keeps (Still k) (held_with k api n)
  unfolding held_with
  held_with-Still n = search (still_rules, update_status-Still) depth 14

  keep_probing-Still : Keeps (Still k) (keep_probing k api)
  unfolding keep_probing
  keep_probing-Still = search (still_rules, probing-Still, held_with-Still) depth 14

  create_gate_job-Calm : (n : ℕ) → Keeps (Calm k) (create_gate_job k api n)
  unfolding create_gate_job
  create_gate_job-Calm n = search (calm_rules, create_named-Calm) depth 16

  pace-Still : (j : Job) (t : Time) → Keeps (Still k) (pace k api j t)
  unfolding pace
  pace-Still j t = search (still_rules, delete_job_ok-Still) depth 14

  decide_due-Still : (e : Option Exemption) → Keeps (Still k) (decide_due k api e)
  unfolding decide_due
  decide_due-Still none = search still_rules
  decide_due-Still (some e) = decide-Still k L api e

  judge_failed-Still :
      (j : Job) (b c : Bool) (g : GateResult) → Keeps (Still k) (judge_failed k api j b c g)
  unfolding judge_failed
  judge_failed-Still j b c g =
      search
        (
          still_rules, decide_due-Still, delete_job_ok-Still, keep_probing-Still, set_hold-Still,
          pace-Still, held_with-Still,
        )
        depth 20

  judge_probe-Still : (j : Job) → Keeps (Still k) (judge_probe k api j)
  unfolding judge_probe
  judge_probe-Still j =
      search (still_rules, delete_job_ok-Still, keep_probing-Still, judge_failed-Still) depth 20

  probe_job-Calm : (n : ℕ) (r : Result Job) → Keeps (Calm k) (probe_job k api n r)
  unfolding probe_job
  probe_job-Calm n (err not_found) =
      search (calm_rules, create_gate_job-Calm, keep_probing-Still) depth 16
  probe_job-Calm n (err _) = search calm_rules
  probe_job-Calm n (ok job) =
      search
        (
          calm_rules, keep_probing-Still, judge_probe-Still, set_hold-Still, probing-Still,
          held_with-Still,
        )
        depth 16

  blocking_pod-Still : (n : ℕ) → Keeps (Still k) (blocking_pod k api n)
  unfolding blocking_pod
  blocking_pod-Still n = search (still_rules, find_pod-Still, rehearsal_pod-Still) depth 14

  gate_pods-Calm : (n : ℕ) → Keeps (Calm k) (gate_pods k api n)
  unfolding gate_pods
  gate_pods-Calm n =
      search (calm_rules, blocking_pod-Still, set_hold-Still, held_with-Still, probe_job-Calm) depth
        16

  -- No answer of the gate, whatever the probe said, comes with a worker created by it.
  pub retry_gate-Calm : (n : ℕ) → Keeps (Calm k) (retry_gate k api n)
  unfolding retry_gate
  retry_gate-Calm n = search (calm_rules, decide-Still, gate_pods-Calm) depth 16

  delete_probe-Still : (job : Job) → Keeps (Still k) (delete_probe k api job)
  unfolding delete_probe
  delete_probe-Still job = search (still_rules, delete_job_ok-Still) depth 14

  pub delete_stray_probes-Still : Keeps (Still k) (delete_stray_probes k api)
  unfolding delete_stray_probes
  delete_stray_probes-Still = search (still_rules, delete_probe-Still) depth 14
