-- ===== src/Lib.antt =====
-- The verification library of pgcopydb-operator, a Kubernetes operator that runs PostgreSQL
-- migrations as pgcopydb Jobs. It models the Migration controller: what one reconcile pass does to
-- the Migration's status and which calls it makes, as a function of the answers that it gets.
--
-- The state of a pass (Platform.Exec, `Pass`) is the object in memory, the object as fetched, and
-- the calls made so far, newest first. A method of the reconciler is a function of that state into a
-- result and a new state, written with do blocks; an error ends the pass and keeps what was changed
-- before it. The API server, the pod logs, the sentinel and the sampler are one record of functions
-- of the calls made so far (Platform.Types, `Api`), a parameter of every definition; two
-- questions with no call between them get the same answer, and nothing else is assumed of them. k8s.io/apimachinery's condition helpers are a second parameter
-- (Migration.Conditions, `ConditionApi`), with their documented laws as `IsLawful`.
--
-- Which file models what (internal/controller unless another folder is named):
--   Migration with its Spec, Conditions and Name: api/v1beta1/migration_types.go, and the names of
--     child Jobs in resources.go.
--   Text and its Numbers, Lines, Scan, Laws and RoundTrip: what the parsers and builders use of Go's
--     strings, strconv, fmt and unicode, on lists of code points. Texts are taken as valid UTF-8.
--   Sentinel: internal/sentinel/sentinel.go (Lag, ToStatus). Sentinel.Parse: ParseLSN, parseSample.
--   Progress: the parsers of internal/progress/progress.go.
--   Pgcopydb: internal/pgcopydb. Logs is logs.go, Compare is compare.go, Args is args.go with
--     defaults.go, Slot is SlotName with its checksum, Filters is RenderFilters with
--     api/v1beta1/filters.go.
--   Controller.Builder: what buildJob, cleanupArgs and publicationDropGuard of resources.go decide,
--     and effectiveSlotName. Controller.Scope: tableScope and scopeEntries of resources.go.
--   Controller.Jobs: jobFinished, jobFailedAt, jobFinishedAt, ensureJob.
--   Controller.Status: setCondition, updateStatus, patchStatusLocked and the latches in conditions.
--   Controller.Hold, Controller.Budget, Controller.Probe, Controller.Gate: retry_gate.go,
--     retry_gate_budget.go and retry_gate_job.go. Controller.Probe.Log: parseGateLog, parseCensus.
--   Controller.Compare, Controller.Verification, Controller.Finish: verification.go and the finish
--     path of follow.go.
--   Controller.Rehearsal and its Run and Drain: rehearsal.go. Controller.Reown: reown.go.
--   Controller.Attempt: startAttempt, recordAttempt, nextAttempt, handleFailedJob of
--     migration_controller.go.
--   Controller.WorkerLog: the classification of a worker's log in handleFailedJob, and the log that
--     observeRunningJob reads.
--   Controller.Follow: reconcileFollowRunning of follow.go. Controller.Observe: observeRunningJob
--     and what it calls, with syncrep.go.
--   Controller.Sampler: sampler.go on a store of its own, hintFor and progressSample; its Steps is
--     the step relation of the store, in which the steps of passes and of the background loop come
--     in any order.
--   Controller.Stop: reconcileSuspended and reconcileDeletion. Controller.Reconcile: Reconcile and
--     reconcile, the preflight gate and the dry run; Preflight below it the preflight Job and the
--     finalizer.
-- Modules named Calm, Onward, Dry, Spent, Cutover, Drained and the like hold the lemmas of the
-- module above them: Platform.Exec.Keeps has the rules for relations between the start and the end
-- of a method, Controller.Frame, Controller.Onward and Controller.Launch the relations.
--
-- A pass reads the raw logs of retry gate probes, workers and compare Jobs and parses them
-- (Controller.Probe.Log, Controller.WorkerLog, Pgcopydb.Compare). The other parsers are functions on
-- texts by themselves: a pass takes what they read of samples and sentinel reports, and of the
-- catalog's progress, as answers of `Api`. json.Unmarshal, time.Parse and strings.ToLower are
-- parameters of the functions that call them, `none` their error.
--
-- Integers of 32 and 64 bits are bit patterns with their wrap-around written out (Prelude.Word); a
-- time counts nanoseconds and 0 is Go's zero time. Loops run over lists and are structural. The
-- printers of numbers alone have fuel, the number itself, which is enough since each round divides
-- it by the base.
--
-- Not modelled: message texts, event notes, logging, and the metrics besides the sampler's gauges;
-- the pod specs of the Jobs; the SQL and shell that the Jobs run; the connection URIs, the exec
-- calls and telemetry; a reply of SetEndposCurrent that is no position; the stopSampling that most
-- passes end with. A status patch leaves the object
-- as it was sent.
pub mod Prelude
pub mod Migration
pub mod Platform
pub mod Text
pub mod Sentinel
pub mod Pgcopydb
pub mod Progress
pub mod Controller
mod Tests
