-- ===== src/Controller/Follow/Onward.antt =====
-- A follow step creates nothing, and where an endpos is recorded it keeps one and does not freeze the
-- stream again.
use pgcopydb_operator.Prelude.{
  ◌≡◌, refl, ◌∙◌, ap, Bool, true, false, Option, none, some, arith, if◌then◌else◌,
}
use pgcopydb_operator.Migration.{MigrationStatus, ReplicationStatus, Lsn, Phase}
use pgcopydb_operator.Migration.Conditions.{ConditionApi, ConditionType, Verdict, Reason}
use pgcopydb_operator.Platform.Types.{Result, ok, err, Call, SlotSample, Api}
use pgcopydb_operator.Platform.Exec.{Pass, Exec, gets, say, modify, skip, status, ◌>>=◌}
use pgcopydb_operator.Platform.Exec.Keeps.{Keeps, IsPreorder, keeps_rules}
use pgcopydb_operator.Sentinel.{endpos_set, to_status, state_of}
use pgcopydb_operator.Controller.Status.{set_condition, set_phase}
use pgcopydb_operator.Controller.Hold.{has_endpos}
use pgcopydb_operator.Controller.Frame.{
  workers, workers_in, is_create, created-say, is_freeze, freezes, freezes-say,
}
use pgcopydb_operator.Controller.Onward.{Quiet, endpos_in, quiet_rules}
use pgcopydb_operator.Controller.Follow.Cutover.{branches}
use pgcopydb_operator.Controller.Follow.{
  merge_replication, set_caught_up, cutover_answer, drive_cutover, cutover_wanted, stream_step,
  sampled_step, reconcile_follow_running,
}

-- A sample never replaces a recorded endpos.
pub merge-endpos :
    (x : SlotSample) (prev : Option ReplicationStatus)
    → has_endpos prev ≡ true
    → (merge_replication (state_of x) prev).endpos ≡ endpos_in prev
unfolding merge_replication to_status
merge-endpos x none h = ground arith
merge-endpos x (some r) h = refl

pub merge-endpos_set :
    (x : SlotSample) (prev : Option ReplicationStatus)
    → has_endpos prev ≡ true
    → endpos_set (merge_replication (state_of x) prev).endpos ≡ true
merge-endpos_set x none h = ground arith
merge-endpos_set x (some r) h = ap endpos_set (merge-endpos x (some r) h) ∙ h

-- What every part of a step leaves alone: the spec and the workers.
record Silent (s t : Pass) : Type 0 where
  spec : t.m.spec ≡ s.m.spec
  works : workers t ≡ workers s

Silent-IsPreorder : IsPreorder Silent
Silent-IsPreorder = record {
  same = λ s. record { spec = refl; works = refl };
  chain = λ s t u p q. record { spec = q.spec ∙ p.spec; works = q.works ∙ p.works };
}

say-Silent : (c : Call) → is_create c ≡ false → Keeps Silent (say c)
unfolding say
say-Silent c h = record {
  at = λ s. record { spec = refl; works = ap workers_in (created-say c s.calls h) };
}

status-Silent : (f : MigrationStatus → MigrationStatus) → Keeps Silent (status f)
unfolding status
status-Silent f = record { at = λ s. record { spec = refl; works = refl } }

ruleset silent_rules = (keeps_rules, Silent-IsPreorder, say-Silent, status-Silent, refl)

-- A step whose status has an endpos: that status stays as it is, and the stream is not frozen.
record Stays (rs : ReplicationStatus) (s t : Pass) : Type 0 where
  silent : Silent s t
  kept :
      endpos_set rs.endpos ≡ true
      → s.m.status.replication ≡ some rs
      → t.m.status.replication ≡ some rs
  count : endpos_set rs.endpos ≡ true → freezes t ≡ freezes s

module _ (rs : ReplicationStatus) where
  Stays-IsPreorder : IsPreorder (Stays rs)
  Stays-IsPreorder = record {
    same = λ s. record { silent = Silent-IsPreorder.same s; kept = λ e h. h; count = λ e. refl };
    chain = λ s t u p q. record {
      silent = Silent-IsPreorder.chain s t u p.silent q.silent;
      kept = λ e h. q.kept e (p.kept e h);
      count = λ e. q.count e ∙ p.count e;
    };
  }

  say-Stays : (c : Call) → is_create c ≡ false → is_freeze c ≡ false → Keeps (Stays rs) (say c)
  unfolding say
  say-Stays c h f = record {
    at = λ s. record {
      silent = (say-Silent c h).at s;
      kept = λ e q. q;
      count = λ e. freezes-say c s.calls f;
    };
  }

  set_phase-Stays : (p : Phase) → Keeps (Stays rs) (set_phase p)
  unfolding status
  set_phase-Stays p = record {
    at = λ s. record {
      silent = record { spec = refl; works = refl };
      kept = λ e q. q;
      count = λ e. refl;
    };
  }

  set_condition-Stays :
      (k : ConditionApi) (t : ConditionType) (v : Verdict) (r : Reason)
      → Keeps (Stays rs) (set_condition k t v r)
  unfolding set_condition modify
  set_condition-Stays k t v r = record {
    at = λ s. record {
      silent = record { spec = refl; works = refl };
      kept = λ e q. q;
      count = λ e. refl;
    };
  }

  Stays-unset :
      {A : Type 0} (m : Exec A) → endpos_set rs.endpos ≡ false → Keeps Silent m → Keeps (Stays rs) m
  Stays-unset m u h = record {
    at = λ s. record {
      silent = h.at s;
      kept = λ e q. ground (arith, u, e);
      count = λ e. ground (arith, u, e);
    };
  }

ruleset stays_rules =
    (keeps_rules, Stays-IsPreorder, say-Stays, set_phase-Stays, set_condition-Stays, refl)

-- The pass whose status has the sample merged into it.
abbrev pub merged : SlotSample → Pass → Pass
merged x s = record s {
  m = record s.m {
    status = record s.m.status {
      replication = some (merge_replication (state_of x) s.m.status.replication);
    };
  };
}

module _ (k : ConditionApi) (api : Api) where
  cutover_answer-Silent : (r : Result Lsn) → Keeps Silent (cutover_answer k api r)
  unfolding cutover_answer
  cutover_answer-Silent (err e) = search silent_rules depth 12
  cutover_answer-Silent (ok e) = search silent_rules depth 14

  open_branches-Silent : (w caught : Bool) → Keeps Silent (branches k api false w caught)
  unfolding branches
  open_branches-Silent w caught = search (silent_rules, cutover_answer-Silent) depth 16

  branches-Stays :
      (rs : ReplicationStatus) (e w caught : Bool)
      → endpos_set rs.endpos ≡ e
      → Keeps (Stays rs) (branches k api e w caught)
  unfolding branches
  branches-Stays rs true w caught h = search stays_rules depth 12
  branches-Stays rs false w caught h =
      Stays-unset rs (branches k api false w caught) h (open_branches-Silent w caught)

  drive_cutover-Stays :
      (rs : ReplicationStatus) (caught : Bool) → Keeps (Stays rs) (drive_cutover k api rs caught)
  unfolding drive_cutover branches ◌>>=◌
  drive_cutover-Stays rs caught = record {
    at = λ s.
        (branches-Stays rs (endpos_set rs.endpos) (cutover_wanted s.m caught) caught refl).at s;
  }

  set_caught_up-Stays :
      (rs : ReplicationStatus) (c b : Bool) → Keeps (Stays rs) (set_caught_up k api c b)
  unfolding set_caught_up
  set_caught_up-Stays rs c b = search stays_rules depth 12

  stream_step-Stays : (rs : ReplicationStatus) → Keeps (Stays rs) (stream_step k api rs)
  unfolding stream_step
  stream_step-Stays rs = search (stays_rules, set_caught_up-Stays, drive_cutover-Stays) depth 16

  merged-Quiet :
      (x : SlotSample) (b : Bool) (s : Pass)
      → Quiet s
          ((if b
              then stream_step k api (merge_replication (state_of x) s.m.status.replication)
              else skip)
            (merged x s)).1
  unfolding skip
  merged-Quiet x false s = record {
    onward = record { spec = refl; endpos = λ h. (merge-endpos x s.m.status.replication h, refl) };
    works = refl;
  }
  merged-Quiet x true s =
      let rs = merge_replication (state_of x) s.m.status.replication in
      let q = (stream_step-Stays rs).at (merged x s) in
      record {
        onward = record {
          spec = q.silent.spec;
          endpos = λ h.
              let e = merge-endpos_set x s.m.status.replication h in
              (ap endpos_in (q.kept e refl) ∙ merge-endpos x s.m.status.replication h, q.count e);
        };
        works = q.silent.works;
      }

  sampled_step-Quiet :
      (b : Bool) (r : Result (Option SlotSample)) → Keeps Quiet (sampled_step k api b r)
  unfolding sampled_step gets status ◌>>=◌
  sampled_step-Quiet b (err e) = search quiet_rules
  sampled_step-Quiet b (ok none) = search quiet_rules
  sampled_step-Quiet b (ok (some x)) = record { at = λ s. merged-Quiet x b s }

  pub reconcile_follow_running-Quiet : (b : Bool) → Keeps Quiet (reconcile_follow_running k api b)
  unfolding reconcile_follow_running
  reconcile_follow_running-Quiet b = search (quiet_rules, sampled_step-Quiet) depth 14
