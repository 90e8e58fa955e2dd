-- ===== src/Controller/Rehearsal/Calm.antt =====
-- Cancelling a rehearsal creates nothing, and no step of one creates a worker.
use pgcopydb_operator.Prelude.{Bool, Option, none, some}
use pgcopydb_operator.Migration.Name.{JobName}
use pgcopydb_operator.Migration.Conditions.{ConditionApi}
use pgcopydb_operator.Platform.Types.{not_found, Result, ok, err, Job, Pod, Selector, Api}
use pgcopydb_operator.Platform.Exec.Keeps.{Keeps}
use pgcopydb_operator.Controller.Frame.{Still, still_rules}
use pgcopydb_operator.Controller.Jobs.Calm.{delete_job_ok-Still}
use pgcopydb_operator.Controller.Compare.Calm.{read_compare_progress-Still}
use pgcopydb_operator.Controller.Rehearsal.{
  record_rehearsal, find_pod, rehearsal_pod, uncached_job, job_or_none, rehearsal_job, canceled_now,
  cancel_job, recorded_job, cancel_recorded, delete_stray, cancel_rehearsal,
}

module _ (k : ConditionApi) (api : Api) where
  pub record_rehearsal-Still : (job : Job) → Keeps (Still k) (record_rehearsal job)
  unfolding record_rehearsal
  record_rehearsal-Still job = search still_rules depth 14

  pub find_pod-Still : (s : Selector) (f : Pod → Bool) → Keeps (Still k) (find_pod api s f)
  unfolding find_pod
  find_pod-Still s f = search still_rules depth 14

  pub rehearsal_pod-Still : Keeps (Still k) (rehearsal_pod api)
  unfolding rehearsal_pod
  rehearsal_pod-Still = search (still_rules, find_pod-Still) depth 14

  uncached_job-Still : (n : JobName) (r : Result Job) → Keeps (Still k) (uncached_job api n r)
  unfolding uncached_job
  uncached_job-Still n (err not_found) = search still_rules
  uncached_job-Still n (err _) = search still_rules
  uncached_job-Still n (ok _) = search still_rules

  job_or_none-Still : (r : Result Job) → Keeps (Still k) (job_or_none api r)
  unfolding job_or_none
  job_or_none-Still (err not_found) = search still_rules
  job_or_none-Still (err _) = search still_rules
  job_or_none-Still (ok _) = search still_rules

  rehearsal_job-Still : (n : JobName) → Keeps (Still k) (rehearsal_job api n)
  unfolding rehearsal_job
  rehearsal_job-Still n = search (still_rules, uncached_job-Still, job_or_none-Still) depth 14

  pub recorded_job-Still : (n : Option JobName) → Keeps (Still k) (recorded_job api n)
  unfolding recorded_job
  recorded_job-Still none = search still_rules
  recorded_job-Still (some n) = rehearsal_job-Still n

  canceled_now-Still : Keeps (Still k) (canceled_now api)
  unfolding canceled_now
  canceled_now-Still = search still_rules depth 14

  cancel_job-Still : (job : Option Job) → Keeps (Still k) (cancel_job api job)
  unfolding cancel_job
  cancel_job-Still none = canceled_now-Still
  cancel_job-Still (some job) =
      search
        (
          still_rules, canceled_now-Still, read_compare_progress-Still, record_rehearsal-Still,
          delete_job_ok-Still,
        )
        depth 16

  cancel_recorded-Still : Keeps (Still k) (cancel_recorded api)
  unfolding cancel_recorded
  cancel_recorded-Still = search (still_rules, cancel_job-Still, recorded_job-Still) depth 14

  delete_stray-Still : (job : Job) → Keeps (Still k) (delete_stray api job)
  unfolding delete_stray
  delete_stray-Still job = search (still_rules, delete_job_ok-Still) depth 14

  pub cancel_rehearsal-Still : Keeps (Still k) (cancel_rehearsal api)
  unfolding cancel_rehearsal
  cancel_rehearsal-Still = search (still_rules, cancel_recorded-Still, delete_stray-Still) depth 14
