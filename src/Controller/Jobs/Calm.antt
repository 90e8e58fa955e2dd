-- ===== src/Controller/Jobs/Calm.antt =====
-- The calls about child Jobs leave the core alone.
use pgcopydb_operator.Prelude.{◌≡◌, false, Option, none, some}
use pgcopydb_operator.Migration.Name.{JobName}
use pgcopydb_operator.Migration.Conditions.{ConditionApi}
use pgcopydb_operator.Platform.Types.{
  Err, not_found, already_exists, Result, ok, err, Job, Propagation, Api,
}
use pgcopydb_operator.Platform.Exec.Keeps.{Keeps}
use pgcopydb_operator.Controller.Frame.{Still, Calm, is_worker, still_rules, calm_rules}
use pgcopydb_operator.Controller.Jobs.{
  delete_job_ok, create_named, ensured, create_missing, ensure_found, ensure_job,
}

module _ (k : ConditionApi) (api : Api) where
  pub delete_job_ok-Still :
      (n : JobName) (p : Propagation) → Keeps (Still k) (delete_job_ok api n p)
  unfolding delete_job_ok
  delete_job_ok-Still n p = search still_rules depth 12

  pub create_named-Calm : (n : JobName) → is_worker n ≡ false → Keeps (Calm k) (create_named api n)
  unfolding create_named
  create_named-Calm n h = search calm_rules depth 12

  ensured-Calm : (e : Option Err) → Keeps (Calm k) (ensured api e)
  unfolding ensured
  ensured-Calm none = search calm_rules
  ensured-Calm (some already_exists) = search calm_rules
  ensured-Calm (some _) = search calm_rules

  create_missing-Calm : (n : JobName) → is_worker n ≡ false → Keeps (Calm k) (create_missing api n)
  unfolding create_missing
  create_missing-Calm n h = search (calm_rules, create_named-Calm, ensured-Calm) depth 12

  ensure_found-Calm :
      (n : JobName) (r : Result Job) → is_worker n ≡ false → Keeps (Calm k) (ensure_found api n r)
  unfolding ensure_found
  ensure_found-Calm n (ok job) h = search calm_rules
  ensure_found-Calm n (err not_found) h = create_missing-Calm n h
  ensure_found-Calm n (err _) h = search calm_rules

  pub ensure_job-Calm : (n : JobName) → is_worker n ≡ false → Keeps (Calm k) (ensure_job api n)
  unfolding ensure_job
  ensure_job-Calm n h = search (calm_rules, ensure_found-Calm) depth 12
