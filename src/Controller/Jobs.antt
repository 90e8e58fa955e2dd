-- ===== src/Controller/Jobs.antt =====
-- Child Jobs: what their conditions say, and fetch-or-create (migration_controller.go, follow.go,
-- retry_gate.go). `Get`, `Create` and `Delete` are the API's.
pub mod Calm
use pgcopydb_operator.Prelude.{
  ℕ, ◌+◌, Bool, true, false, ◌&&◌, Option, none, some, List, [], ◌∷◌, ◌==◌, if◌then◌else◌,
  Bool-cases,
}
use pgcopydb_operator.Migration.{Migration, Time}
use pgcopydb_operator.Migration.Name.{JobName}
use pgcopydb_operator.Platform.Types.{
  Err, Result, ok, err, not_found, already_exists, Job, JobCondition, JobConditionType,
  job_complete, job_failed, job_other, Propagation, foreground, background, Api, create_job,
  delete_job,
}
use pgcopydb_operator.Platform.Exec.{
  Pass, Exec, pure, raise, lift, gets, ask, skip, say, raise_some, ◌>>=◌, ◌>>◌, caught, when,
}

-- What jobFinished answers: running is (false, false).
pub data Finish : Type 0 where
  job_running job_succeeded job_has_failed : Finish

-- The body of jobFinished's loop for one condition that is true.
abbrev finish_of : JobConditionType → Finish → Finish
finish_of job_complete rest = job_succeeded
finish_of job_failed rest = job_has_failed
finish_of job_other rest = rest

-- jobFinished: the first true condition that is Complete or Failed decides.
unfoldable pub job_finished : List JobCondition → Finish
job_finished [] = job_running
job_finished (c ∷ cs) =
    let rest = job_finished cs in if c.is_true then finish_of c.type rest else rest

abbrev pub is_done : Finish → Bool
is_done job_running = false
is_done job_succeeded = true
is_done job_has_failed = true

abbrev pub is_success : Finish → Bool
is_success job_succeeded = true
is_success job_running = false
is_success job_has_failed = false

abbrev is_failed_type : JobConditionType → Bool
is_failed_type job_failed = true
is_failed_type job_complete = false
is_failed_type job_other = false

-- jobFailedAt: when the Failed condition was set, 0 when unset.
unfoldable pub job_failed_at : List JobCondition → Time
job_failed_at [] = 0
job_failed_at (c ∷ cs) =
    let rest = job_failed_at cs in
    if is_failed_type c.type && c.is_true then c.last_transition else rest

abbrev time_or_zero : Option Time → Time
time_or_zero none = 0
time_or_zero (some t) = t

-- jobFinishedAt
unfoldable pub job_finished_at : Job → Time
unfolding job_failed_at
job_finished_at job =
    let t = job_failed_at job.conditions in if t == 0 then time_or_zero job.completion_time else t

-- An API error that the caller takes for success: IsNotFound on a delete, IsAlreadyExists on a
-- create.
abbrev pub unless_not_found : Option Err → Option Err
unless_not_found none = none
unless_not_found (some not_found) = none
unless_not_found (some e) = some e

abbrev pub unless_exists : Option Err → Option Err
unless_exists none = none
unless_exists (some already_exists) = none
unless_exists (some e) = some e

module _ (api : Api) where
  abbrev pub get_job : JobName → Exec (Result Job)
  get_job name = ask (λ t. api.get_job t false name)

  abbrev pub get_job_uncached : JobName → Exec (Result Job)
  get_job_uncached name = ask (λ t. api.get_job t true name)

  -- r.Delete with a propagation policy, a Job already gone taken for success.
  unfoldable pub delete_job_ok : JobName → Propagation → Exec (Unit {0})
  unfolding ◌>>=◌
  delete_job_ok name policy = do
    failed ← ask (λ t. api.delete_job_error t name)
    say (delete_job name policy)
    raise_some (unless_not_found failed)

  -- r.Create; the error is the caller's.
  unfoldable pub create_named : JobName → Exec (Option Err)
  unfolding ◌>>=◌
  create_named name = do
    failed ← ask (λ t. api.create_job_error t name)
    say (create_job name)
    pure failed

  -- What ensureJob makes of the answer to its create.
  unfoldable pub ensured : Option Err → Exec (Option Job × Bool)
  ensured none = pure (none, true)
  ensured (some already_exists) = pure (none, false)
  ensured (some e) = raise e

  -- ensureJob's build and create, for a Job that is absent.
  unfoldable pub create_missing : JobName → Exec (Option Job × Bool)
  unfolding ensured ◌>>=◌
  create_missing name = do
    m ← gets (λ s. s.m)
    raise_some (api.build_error m name)
    failed ← create_named name
    ensured failed

  unfoldable pub ensure_found : JobName → Result Job → Exec (Option Job × Bool)
  ensure_found name (ok job) = pure (some job, false)
  ensure_found name (err not_found) = create_missing name
  ensure_found name (err e) = raise e

  -- ensureJob: the named child Job, created when absent; no Job and no error mean that it has just
  -- been created. The Boolean is `created`.
  unfoldable pub ensure_job : JobName → Exec (Option Job × Bool)
  unfolding ensure_found create_missing ◌>>=◌
  ensure_job name = do got ← get_job name; ensure_found name got
