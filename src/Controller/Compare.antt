-- ===== src/Controller/Compare.antt =====
-- The progress of compare data Jobs (verification.go).
pub mod Items
pub mod Calm
use pgcopydb_operator.Prelude.{
  ℕ, ◌+◌, ◌*◌, ◌%◌, Bool, true, false, ◌&&◌, ◌||◌, Option, none, some, List, [], ◌∷◌, ◌++◌,
  if◌then◌else◌, ltb, not, is_some,
}
use pgcopydb_operator.Prelude.Word.{i64_mod}
use pgcopydb_operator.Migration.{
  Migration, Time, second, ProgressKind, rehearsal_run, drain_run, data_run, VerificationProgress,
  CompareCounts,
}
use pgcopydb_operator.Migration.Name.{JobName, same_name}
use pgcopydb_operator.Platform.Types.{Err, other_error, Job, Api}
use pgcopydb_operator.Text.{trim_space}
use pgcopydb_operator.Pgcopydb.Compare.{CompareProgress, last_compare_progress}
use pgcopydb_operator.Platform.Exec.{
  Pass, Exec, pure, raise, gets, ask, skip, status, ◌>>=◌, ◌>>◌, when,
}
use pgcopydb_operator.Controller.Jobs.{job_finished, is_done, job_finished_at}
use pgcopydb_operator.Controller.Status.{current_time}

-- failedLogGrace
abbrev pub failed_log_grace : Time
failed_log_grace = 120 * second

-- The figures of the new item; millis counts nanoseconds.
abbrev pub compare_counts : CompareProgress → CompareCounts
compare_counts p = record {
  planned_tables = p.planned_tables;
  compared_tables = p.compared_tables;
  planned_bytes = p.planned_bytes;
  compared_bytes = p.compared_bytes;
  compared_rows = p.compared_rows;
  differing_tables = p.differing_tables;
  failed_tables = p.failed_tables;
  elapsed = p.elapsed_ms * 1000000 % i64_mod;
}

abbrev pub same_kind : ProgressKind → ProgressKind → Bool
same_kind rehearsal_run rehearsal_run = true
same_kind drain_run drain_run = true
same_kind data_run data_run = true
same_kind _ _ = false

abbrev observed_after : Time → Option Time → Bool
observed_after t none = false
observed_after t (some o) = ltb t o

-- The loop of compareProgressFinal: the first item of the kind answers.
pub final_in : ProgressKind → Job → List VerificationProgress → Bool
final_in kind job [] = false
final_in kind job (p ∷ ps) =
    let rest = final_in kind job ps in
    if same_kind p.kind kind
    then p.final
      && same_name p.job_name job.name
      && observed_after (job_finished_at job) p.observed_at
    else rest

-- compareProgressFinal
unfoldable pub compare_progress_final : ProgressKind → Job → List VerificationProgress → Bool
compare_progress_final kind job ps = is_done (job_finished job.conditions) && final_in kind job ps

-- The loop of recordCompareProgress: the item of the kind is replaced in place, or appended.
pub replace_item : VerificationProgress → List VerificationProgress → List VerificationProgress
replace_item item [] = item ∷ []
replace_item item (p ∷ ps) =
    let rest = replace_item item ps in if same_kind p.kind item.kind then item ∷ ps else p ∷ rest

-- dropCompareProgress
pub drop_item : ProgressKind → List VerificationProgress → List VerificationProgress
drop_item kind [] = []
drop_item kind (p ∷ ps) =
    let rest = drop_item kind ps in if same_kind p.kind kind then rest else p ∷ rest

abbrev pub drop_compare_progress : ProgressKind → Exec (Unit {0})
drop_compare_progress kind =
    status (λ st. record st { verification_progress = drop_item kind st.verification_progress })

module _ (api : Api) where
  record_sample : ProgressKind → Job → Time → Option CompareProgress → Exec (Unit {0})
  record_sample kind job now none = skip
  record_sample kind job now (some p) = status (λ st. record st {
    verification_progress =
        replace_item
          (record {
            kind = kind;
            job_name = job.name;
            observed_at = some now;
            final = p.final;
            counts = compare_counts p;
          })
          st.verification_progress;
  })

  -- recordCompareProgress
  unfoldable pub record_compare_progress : ProgressKind → Job → Exec (Unit {0})
  unfolding record_sample ◌>>=◌
  record_compare_progress kind job = do
    final ← gets (λ s. compare_progress_final kind job s.m.status.verification_progress)
    sample ← ask (λ t.
        last_compare_progress api.decode api.unmarshal (trim_space (api.compare_log t job.name)))
    now ← current_time api
    if final then skip else record_sample kind job now sample

  abbrev read_failed : Option Err → Bool → Time → Job → Bool
  read_failed failed done now job =
      is_some failed && done && ltb now (job_finished_at job + failed_log_grace)

  after_read : ProgressKind → Job → Option Err → Time → Exec (Unit {0})
  unfolding record_compare_progress
  after_read kind job failed now =
      if read_failed failed (is_done (job_finished job.conditions)) now job
      then raise other_error
      else if is_some failed
      then skip
      else record_compare_progress kind job

  -- readCompareProgress: a finished Job's read error is returned for failedLogGrace, any other
  -- keeps the progress as it is.
  unfoldable pub read_compare_progress : ProgressKind → Job → Exec (Unit {0})
  unfolding after_read ◌>>=◌
  read_compare_progress kind job = do
    final ← gets (λ s. compare_progress_final kind job s.m.status.verification_progress)
    failed ← ask (λ t. api.log_error t job.name)
    now ← current_time api
    if not api.has_logs || final then skip else after_read kind job failed now
