-- ===== src/Controller/Follow.antt =====
-- Streaming and cutover while the worker runs (follow.go).
pub mod Onward
pub mod Cutover
pub mod Freeze
use pgcopydb_operator.Prelude.{
  ℕ, ◌+◌, ◌*◌, Bool, true, false, ◌&&◌, ◌||◌, Option, none, some, if◌then◌else◌, not,
}
use pgcopydb_operator.Prelude.Word.{le64}
use pgcopydb_operator.Migration.{
  Migration, Phase, cutover_pending, cutting_over, CutoverMode, automatic, manual, FollowOptions,
  ReplicationStatus, Lsn, no_lsn, null_lsn, lsn,
}
use pgcopydb_operator.Migration.Conditions.{
  ConditionType, caught_up, Reason, replaying, lag_below_threshold, confirming_catch_up, lagging,
  cutover_retry, cutover_started, yes_true, no_false, ConditionApi,
}
use pgcopydb_operator.Platform.Types.{
  Err, Result, ok, err, SentinelState, SlotSample, set_endpos, nudge_endpos, Api,
}
use pgcopydb_operator.Platform.Exec.{
  Pass, Exec, pure, gets, ask, skip, say, status, ◌>>=◌, ◌>>◌, when,
}
use pgcopydb_operator.Controller.Status.{set_condition, lag_seen_below, set_phase, emit}
use pgcopydb_operator.Sentinel.{endpos_set, to_status, state_of}

abbrev lag_option : Option FollowOptions → Option ℕ
lag_option none = none
lag_option (some f) = f.max_catchup_lag

abbrev or_default : Option ℕ → ℕ
or_default none = 16777216
or_default (some n) = n

-- maxCatchupLagBytes, 16 MiB where it is unset
abbrev pub max_catchup_lag_bytes : Migration → ℕ
max_catchup_lag_bytes m = or_default (lag_option m.spec.follow)

abbrev wanted : CutoverMode → Bool → Bool → Bool
wanted automatic approved caught = caught
wanted manual approved caught = approved && caught

-- cutoverWanted
abbrev pub cutover_wanted : Migration → Bool → Bool
cutover_wanted m caught = wanted m.spec.cutover.mode m.spec.cutover.approved caught

-- The carry-over of one field that the sample lacks.
abbrev lsn_or : Lsn → Lsn → Lsn
lsn_or no_lsn prev = prev
lsn_or null_lsn prev = null_lsn
lsn_or (lsn n) prev = lsn n

abbrev lag_or : Option ℕ → Option ℕ → Option ℕ
lag_or none prev = prev
lag_or (some n) prev = some n

-- The rs of reconcileFollowRunning: the sample's status with what the previous one carries forward.
unfoldable pub merge_replication : SentinelState → Option ReplicationStatus → ReplicationStatus
merge_replication st none = to_status st
merge_replication st (some prev) =
    let rs = to_status st in
    record {
      write_lsn = rs.write_lsn;
      replay_lsn = lsn_or rs.replay_lsn prev.replay_lsn;
      endpos = lsn_or rs.endpos prev.endpos;
      lag_bytes = lag_or rs.lag_bytes prev.lag_bytes;
    }

abbrev pub lag_below : Option ℕ → ℕ → Bool
lag_below none limit = false
lag_below (some n) limit = le64 n limit

abbrev set_endpos_in : Lsn → Option ReplicationStatus → Option ReplicationStatus
set_endpos_in e none = none
set_endpos_in e (some r) = some (record r { endpos = e })

module _ (k : ConditionApi) (api : Api) where
  -- The switch that sets CaughtUp: two samples below the threshold in a row.
  set_caught_up : Bool → Bool → Exec (Unit {0})
  set_caught_up caught below =
      if caught
      then set_condition k caught_up yes_true lag_below_threshold
      else if below
      then set_condition k caught_up no_false confirming_catch_up
      else set_condition k caught_up no_false lagging

  -- The answer of SetEndposCurrent; false ends the step.
  cutover_answer : Result Lsn → Exec Bool
  unfolding ◌>>=◌
  cutover_answer (err e) = do emit true cutover_retry; pure false
  cutover_answer (ok e) = do
    when (endpos_set e) (status (λ st. record st { replication = set_endpos_in e st.replication }))
    set_phase cutting_over
    emit false cutover_started
    pure true

  -- The switch that triggers the cutover; false is the early return.
  unfoldable pub drive_cutover : ReplicationStatus → Bool → Exec Bool
  unfolding cutover_answer ◌>>=◌
  drive_cutover rs caught = do
    asked ← gets (λ s. cutover_wanted s.m caught)
    if endpos_set rs.endpos
        then (do set_phase cutting_over; pure true)
        else if asked
        then (do reply ← ask api.set_endpos_reply; say set_endpos; cutover_answer reply)
        else (do when caught (set_phase cutover_pending); pure true)

  abbrev is_cutting_over : Phase → Bool
  is_cutting_over cutting_over = true
  is_cutting_over _ = false

  -- reconcileFollowRunning once the base copy is done.
  pub stream_step : ReplicationStatus → Exec (Unit {0})
  unfolding set_caught_up drive_cutover ◌>>=◌
  stream_step rs = do
    set_condition k ConditionType.streaming yes_true replaying
    set_phase Phase.streaming
    limit ← gets (λ s. max_catchup_lag_bytes s.m)
    let below = lag_below rs.lag_bytes limit
    seen ← gets (λ s. lag_seen_below k s.m)
    set_caught_up (below && seen) below
    go_on ← drive_cutover rs (below && seen)
    draining ← gets (λ s. is_cutting_over s.m.status.phase)
    when (go_on && draining) (say nudge_endpos)

  sampled_step : Bool → Result (Option SlotSample) → Exec (Unit {0})
  unfolding stream_step ◌>>=◌
  sampled_step clone_done (err e) = skip
  sampled_step clone_done (ok none) = skip
  sampled_step clone_done (ok (some sample)) = do
    let st = state_of sample
    prev ← gets (λ s. s.m.status.replication)
    status (λ x. record x { replication = some (merge_replication st x.replication) })
    if clone_done then stream_step (merge_replication st prev) else skip

  -- reconcileFollowRunning
  unfoldable pub reconcile_follow_running : Bool → Exec (Unit {0})
  unfolding sampled_step ◌>>=◌
  reconcile_follow_running clone_done =
      if not api.has_sentinel
      then skip
      else do sample ← ask api.sentinel_read; sampled_step clone_done sample
