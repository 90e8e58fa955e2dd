-- ===== src/Controller/Observe/Onward.antt =====
-- A pass over a running worker creates no worker, keeps the spec and keeps a recorded endpos.
use pgcopydb_operator.Prelude.{Bool, Option, none, some}
use pgcopydb_operator.Migration.{Time}
use pgcopydb_operator.Migration.Name.{JobName}
use pgcopydb_operator.Migration.Conditions.{ConditionApi, IsLawful}
use pgcopydb_operator.Platform.Types.{
  Job, Pod, WorkerLog, RelationCounts, Sample, Sampled, Next, Api,
}
use pgcopydb_operator.Platform.Exec.Keeps.{Keeps}
use pgcopydb_operator.Controller.Onward.{Quiet, Calm-Quiet, Still-Quiet, quiet_rules}
use pgcopydb_operator.Controller.Status.Calm.{update_status-Still}
use pgcopydb_operator.Controller.Hold.Calm.{end_hold-Still}
use pgcopydb_operator.Controller.Rehearsal.Run.Calm.{reconcile_rehearsal-Calm}
use pgcopydb_operator.Controller.Gate.Calm.{delete_stray_probes-Still}
use pgcopydb_operator.Controller.Follow.Onward.{reconcile_follow_running-Quiet}
use pgcopydb_operator.Controller.Observe.{
  apply_commits_blocked, apply_stage, apply_counts, confirm_base_copy, delete_live_pod,
  delete_job_pods, zombie, reap_zombie_worker, reaped, apply_sample, follow_step,
  observe_running_job,
}

module _ (k : ConditionApi) where
  apply_commits_blocked-Quiet : (g : Sampled) → Keeps Quiet (apply_commits_blocked k g)
  unfolding apply_commits_blocked
  apply_commits_blocked-Quiet g = search quiet_rules depth 16

  apply_stage-Quiet : (s : Sample) (b : Bool) → Keeps Quiet (apply_stage k s b)
  unfolding apply_stage
  apply_stage-Quiet s b = search quiet_rules depth 16

  apply_counts-Quiet : (c : Option RelationCounts) (t : Time) → Keeps Quiet (apply_counts k c t)
  unfolding apply_counts
  apply_counts-Quiet none t = search quiet_rules
  apply_counts-Quiet (some c) t = search quiet_rules

  confirm_base_copy-Quiet : (c : Option RelationCounts) → Keeps Quiet (confirm_base_copy k c)
  unfolding confirm_base_copy
  confirm_base_copy-Quiet c = search quiet_rules depth 16

module _ (api : Api) where
  delete_live_pod-Quiet : (p : Pod) → Keeps Quiet (delete_live_pod api p)
  unfolding delete_live_pod
  delete_live_pod-Quiet p = search quiet_rules depth 14

  delete_job_pods-Quiet : (n : JobName) → Keeps Quiet (delete_job_pods api n)
  unfolding delete_job_pods
  delete_job_pods-Quiet n = search (quiet_rules, delete_live_pod-Quiet) depth 14

  zombie-Quiet : (j : Job) (t : Option Time) → Keeps Quiet (zombie api j t)
  unfolding zombie
  zombie-Quiet j none = search quiet_rules
  zombie-Quiet j (some t) = search (quiet_rules, delete_job_pods-Quiet) depth 14

  reap_zombie_worker-Quiet : (j : Job) (w : WorkerLog) → Keeps Quiet (reap_zombie_worker api j w)
  unfolding reap_zombie_worker
  reap_zombie_worker-Quiet j w = search (quiet_rules, zombie-Quiet) depth 14

module _ (k : ConditionApi) (L : IsLawful k) (api : Api) where
  reaped-Quiet : (t : Time) (o : Option Next) → Keeps Quiet (reaped k api t o)
  unfolding reaped
  reaped-Quiet t (some n) = search quiet_rules
  reaped-Quiet t none = search (quiet_rules, Still-Quiet k, delete_stray_probes-Still) depth 14

  apply_sample-Quiet : (g : Sampled) (s : Option Sample) → Keeps Quiet (apply_sample k api g s)
  unfolding apply_sample
  apply_sample-Quiet g none = search quiet_rules
  apply_sample-Quiet g (some s) =
      search (quiet_rules, apply_stage-Quiet, apply_counts-Quiet) depth 14

  follow_step-Quiet : (b : Bool) → Keeps Quiet (follow_step k api b)
  unfolding follow_step
  follow_step-Quiet b =
      search (quiet_rules, Calm-Quiet k, reconcile_follow_running-Quiet, reconcile_rehearsal-Calm)
        depth 14

  pub observe_running_job-Quiet : (j : Job) (t : Time) → Keeps Quiet (observe_running_job k api j t)
  unfolding observe_running_job
  observe_running_job-Quiet j t =
      search
        (
          quiet_rules,
          Still-Quiet k,
          apply_commits_blocked-Quiet,
          apply_sample-Quiet,
          confirm_base_copy-Quiet,
          follow_step-Quiet,
          end_hold-Still,
          update_status-Still,
          reap_zombie_worker-Quiet,
          reaped-Quiet,
        )
        depth 24
