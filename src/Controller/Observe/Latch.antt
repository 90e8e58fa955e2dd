-- ===== src/Controller/Observe/Latch.antt =====
-- CommitsBlocked as a latch: a sample that was lost never decides.
use pgcopydb_operator.Prelude.{
  ◌≡◌, refl, Bool, true, false, ◌&&◌, not, is_some, if◌then◌else◌, ◌==◌,
}
use pgcopydb_operator.Migration.Conditions.{
  ConditionApi, IsLawful, commits_blocked, unknown, yes_true, no_false, sync_rep_unobserved,
  sync_rep_wait, no_sync_rep_wait, Reason, Verdict, verdict_true,
}
use pgcopydb_operator.Platform.Types.{Sampled}
use pgcopydb_operator.Platform.Exec.{Pass, Exec, ◌>>=◌, ◌>>◌, when, skip, say, modify}
use pgcopydb_operator.Controller.Status.{condition, holds, set_condition, emit}
use pgcopydb_operator.Controller.Frame.{is_true-set}
use pgcopydb_operator.Controller.Observe.{sync_rep_over, sync_rep_of, apply_commits_blocked}

module _ (k : ConditionApi) (L : IsLawful k) where
  -- The branches of applyCommitsBlocked.
  branches : (unsampled listed confirmed over blocked : Bool) → Exec (Unit {0})
  branches unsampled listed confirmed over blocked =
      if unsampled
      then skip
      else if not listed
      then when (not blocked) (set_condition k commits_blocked unknown sync_rep_unobserved)
      else if confirmed
      then (do
        when (not blocked) (emit true Reason.commits_blocked)
        set_condition k commits_blocked yes_true sync_rep_wait)
      else when (not over) (set_condition k commits_blocked no_false no_sync_rep_wait)

  set-lem :
      (s : Pass) (v : Verdict) (r : Reason)
      → holds k (set_condition k commits_blocked v r s).1.m commits_blocked ≡ verdict_true v
  unfolding set_condition modify ◌>>=◌
  set-lem s v r =
      is_true-set k L s.m.status.conditions (condition k s.m commits_blocked v r) commits_blocked

  branches-holds :
      (s : Pass) (z l c o b : Bool)
      → holds k s.m commits_blocked ≡ b
      → holds k (branches z l c o b s).1.m commits_blocked
        ≡ (if z then b else if not l then b else if c then true else (o && b))
  unfolding branches skip say ◌>>=◌
  branches-holds s true l c o b h = h
  branches-holds s false false c o true h = h
  branches-holds s false false c o false h = set-lem s unknown sync_rep_unobserved
  branches-holds s false true true o true h = set-lem s yes_true sync_rep_wait
  branches-holds s false true true o false h = set-lem _ yes_true sync_rep_wait
  branches-holds s false true false true b h = h
  branches-holds s false true false false b h = set-lem s no_false no_sync_rep_wait

  -- CommitsBlocked after a sample: as it was where nothing was sampled or the wait list is missing,
  -- true where the sampler confirmed a wait, else as it was while a wait is over the threshold, and
  -- false where none is.
  pub apply_commits_blocked-holds :
      (got : Sampled) (s : Pass)
      → holds k (apply_commits_blocked k got s).1.m commits_blocked ≡ (
          if got.at == 0
          then holds k s.m commits_blocked
          else if not (is_some (sync_rep_of got.sample))
          then holds k s.m commits_blocked
          else if got.sync_rep_confirmed
          then true
          else (sync_rep_over (sync_rep_of got.sample) && holds k s.m commits_blocked))
  unfolding apply_commits_blocked branches ◌>>=◌
  apply_commits_blocked-holds got s =
      branches-holds s (got.at == 0) (is_some (sync_rep_of got.sample)) got.sync_rep_confirmed
        (sync_rep_over (sync_rep_of got.sample)) (holds k s.m commits_blocked) refl
