-- ===== src/Controller/Follow/Cutover.antt =====
-- When the stream is frozen: the one call that sets the endpos.
use pgcopydb_operator.Prelude.{
  suc, ◌≡◌, refl, ◌∙◌, sym, ap, ◌⊎◌, inl, inr, Bool, true, false, ◌&&◌, if◌then◌else◌, arith,
}
use pgcopydb_operator.Migration.{
  Migration, MigrationStatus, CutoverMode, automatic, manual, ReplicationStatus, Lsn, Phase,
  cutting_over, cutover_pending,
}
use pgcopydb_operator.Migration.Conditions.{
  ConditionApi, IsLawful, ConditionType, caught_up, Verdict, yes_true, Reason, replaying,
}
use pgcopydb_operator.Platform.Types.{Result, ok, err, Call, set_endpos, nudge_endpos, Api}
use pgcopydb_operator.Platform.Exec.{
  Pass, Exec, pure, gets, ask, say, modify, status, when, ◌>>=◌, ◌>>◌, continue,
}
use pgcopydb_operator.Platform.Exec.Keeps.{Keeps, IsPreorder, keeps_rules}
use pgcopydb_operator.Sentinel.{endpos_set}
use pgcopydb_operator.Controller.Frame.{is_freeze, freezes, freezes-say}
use pgcopydb_operator.Controller.Status.{
  condition, put_condition, set_condition, lag_seen_below, below_latch, set_phase,
}
use pgcopydb_operator.Controller.Follow.{
  max_catchup_lag_bytes, wanted, cutover_wanted, lag_below, set_caught_up, cutover_answer,
  drive_cutover, is_cutting_over, stream_step,
}

-- The stream is not frozen, and the spec stays.
record Thawed (s t : Pass) : Type 0 where
  count : freezes t ≡ freezes s
  spec : t.m.spec ≡ s.m.spec

Thawed-IsPreorder : IsPreorder Thawed
Thawed-IsPreorder = record {
  same = λ s. record { count = refl; spec = refl };
  chain = λ s t u p q. record { count = q.count ∙ p.count; spec = q.spec ∙ p.spec };
}

say-Thawed : (c : Call) → is_freeze c ≡ false → Keeps Thawed (say c)
unfolding say
say-Thawed c h = record { at = λ s. record { count = freezes-say c s.calls h; spec = refl } }

status-Thawed : (f : MigrationStatus → MigrationStatus) → Keeps Thawed (status f)
unfolding status
status-Thawed f = record { at = λ s. record { count = refl; spec = refl } }

set_condition-Thawed :
    (k : ConditionApi) (t : ConditionType) (v : Verdict) (r : Reason)
    → Keeps Thawed (set_condition k t v r)
unfolding set_condition modify
set_condition-Thawed k t v r = record { at = λ s. record { count = refl; spec = refl } }

ruleset thawed_rules =
    (keeps_rules, Thawed-IsPreorder, say-Thawed, status-Thawed, set_condition-Thawed, refl)

-- The stream is frozen once at most, and only where no endpos is recorded and the cutover is wanted.
record Freezing (rs : ReplicationStatus) (caught : Bool) (s t : Pass) : Type 0 where
  outcome :
      (freezes t ≡ freezes s)
      ⊎ ((freezes t ≡ suc (freezes s))
          × (endpos_set rs.endpos ≡ false)
          × (cutover_wanted s.m caught ≡ true))

module _ (rs : ReplicationStatus) (caught : Bool) {A B : Type 0} where
  left-continue :
      (r : Result A) (f : A → Exec B) (s t : Pass)
      → Thawed s t
      → ((a : A) → Keeps (Freezing rs caught) (f a))
      → Freezing rs caught s (continue r f t).1
  left-continue (err e) f s t p h = record { outcome = inl p.count }
  left-continue (ok a) f s t p h = record {
    outcome = elim (((h a).at t).outcome) [
      | inl q ↦ inl (q ∙ p.count)
      | inr (q, e, w) ↦ inr (
        q ∙ ap suc p.count,
        e,
        ap (λ x. wanted x.cutover.mode x.cutover.approved caught) (sym p.spec) ∙ w,
      )
    ];
  }

  Freezing-left :
      (m : Exec A) (f : A → Exec B)
      → Keeps Thawed m
      → ((a : A) → Keeps (Freezing rs caught) (f a))
      → Keeps (Freezing rs caught) (m >>= f)
  unfolding ◌>>=◌
  Freezing-left m f h i = record { at = λ s. let (r, t) = m s in left-continue r f s t (h.at s) i }

  right-continue :
      (r : Result A) (f : A → Exec B) (s t : Pass)
      → Freezing rs caught s t
      → ((a : A) → Keeps Thawed (f a))
      → Freezing rs caught s (continue r f t).1
  right-continue (err e) f s t p h = p
  right-continue (ok a) f s t p h = record {
    outcome = elim p.outcome [
      | inl q ↦ inl (((h a).at t).count ∙ q)
      | inr (q, e, w) ↦ inr (((h a).at t).count ∙ q, e, w)
    ];
  }

  Freezing-right :
      (m : Exec A) (f : A → Exec B)
      → Keeps (Freezing rs caught) m
      → ((a : A) → Keeps Thawed (f a))
      → Keeps (Freezing rs caught) (m >>= f)
  unfolding ◌>>=◌
  Freezing-right m f h i = record {
    at = λ s. let (r, t) = m s in right-continue r f s t (h.at s) i;
  }

module _ (k : ConditionApi) (api : Api) where
  cutover_answer-Thawed : (r : Result Lsn) → Keeps Thawed (cutover_answer k api r)
  unfolding cutover_answer
  cutover_answer-Thawed (err e) = search thawed_rules depth 12
  cutover_answer-Thawed (ok e) = search thawed_rules depth 14

  set_caught_up-Thawed : (c b : Bool) → Keeps Thawed (set_caught_up k api c b)
  unfolding set_caught_up
  set_caught_up-Thawed c b = search thawed_rules depth 12

  -- The branches of the switch that triggers the cutover.
  unfoldable pub branches : (recorded asked : Bool) → Bool → Exec Bool
  unfolding cutover_answer
  branches recorded asked caught =
      if recorded
      then (do set_phase cutting_over; pure true)
      else if asked
      then (do reply ← ask api.set_endpos_reply; say set_endpos; cutover_answer k api reply)
      else (do when caught (set_phase cutover_pending); pure true)

  quiet-Thawed : (caught : Bool) → Keeps Thawed (branches false false caught)
  unfolding branches
  quiet-Thawed caught = search thawed_rules depth 12

  recorded-Thawed : (w caught : Bool) → Keeps Thawed (branches true w caught)
  unfolding branches
  recorded-Thawed w caught = search thawed_rules depth 12

  frozen : (s : Pass) (caught : Bool) → freezes (branches false true caught s).1 ≡ suc (freezes s)
  unfolding branches ask say ◌>>=◌
  frozen s caught = ((cutover_answer-Thawed (api.set_endpos_reply s.calls)).at _).count

  branches-Freezing :
      (rs : ReplicationStatus) (caught : Bool) (s : Pass) (e w : Bool)
      → endpos_set rs.endpos ≡ e
      → cutover_wanted s.m caught ≡ w
      → Freezing rs caught s (branches e w caught s).1
  branches-Freezing rs caught s true w h i = record {
    outcome = inl (((recorded-Thawed w caught).at s).count);
  }
  branches-Freezing rs caught s false false h i = record {
    outcome = inl (((quiet-Thawed caught).at s).count);
  }
  branches-Freezing rs caught s false true h i = record { outcome = inr (frozen s caught, h, i) }

  drive_cutover-Freezing :
      (rs : ReplicationStatus) (caught : Bool)
      → Keeps (Freezing rs caught) (drive_cutover k api rs caught)
  unfolding drive_cutover branches ◌>>=◌
  drive_cutover-Freezing rs caught = record {
    at = λ s.
        branches-Freezing rs caught s (endpos_set rs.endpos) (cutover_wanted s.m caught) refl refl;
  }

  -- The step behind the reads of the lag and of its latch.
  tail : ReplicationStatus → (below seen : Bool) → Exec (Unit {0})
  tail rs below seen = do
    set_caught_up k api (below && seen) below
    go_on ← drive_cutover k api rs (below && seen)
    draining ← gets (λ s. is_cutting_over k api s.m.status.phase)
    when (go_on && draining) (say nudge_endpos)

  nudge-Thawed :
      (go_on : Bool)
      → Keeps Thawed (
          gets (λ s. is_cutting_over k api s.m.status.phase) >>= λ draining.
          when (go_on && draining) (say nudge_endpos))
  nudge-Thawed go_on = search thawed_rules depth 12

  tail-Freezing :
      (rs : ReplicationStatus) (below seen : Bool)
      → Keeps (Freezing rs (below && seen)) (tail rs below seen)
  unfolding tail
  tail-Freezing rs below seen =
      Freezing-left rs (below && seen) (set_caught_up k api (below && seen) below) _
        (set_caught_up-Thawed (below && seen) below)
        (λ u.
          Freezing-right rs (below && seen) (drive_cutover k api rs (below && seen)) _
            (drive_cutover-Freezing rs (below && seen)) nudge-Thawed)

wanted-lem :
    (mode : CutoverMode) (approved below seen : Bool)
    → wanted mode approved (below && seen) ≡ true
    → (below ≡ true) × (seen ≡ true) × ((mode ≡ automatic) ⊎ (approved ≡ true))
wanted-lem automatic a true true h = (refl, refl, inl refl)
wanted-lem automatic a true false h = ground arith
wanted-lem automatic a false s h = ground arith
wanted-lem manual true true true h = (refl, refl, inr refl)
wanted-lem manual true true false h = ground arith
wanted-lem manual true false s h = ground arith
wanted-lem manual false b s h = ground arith

-- A cutover is due: no endpos is recorded, the lag of this sample and that of the one before are
-- below the limit, and the cutover is automatic or approved.
pub record IsDue (k : ConditionApi) (rs : ReplicationStatus) (m : Migration) : Type 0 where
  pub unset : endpos_set rs.endpos ≡ false
  pub below : lag_below rs.lag_bytes (max_catchup_lag_bytes m) ≡ true
  pub confirmed : lag_seen_below k m ≡ true
  pub wanted_by : (m.spec.cutover.mode ≡ automatic) ⊎ (m.spec.cutover.approved ≡ true)

module _ (k : ConditionApi) (L : IsLawful k) (api : Api) where
  -- The pass once it is recorded as streaming.
  marked : Pass → Pass
  marked s = record s {
    m =
        let m = put_condition k (condition k s.m ConditionType.streaming yes_true replaying) s.m in
        record m { status = record m.status { phase = Phase.streaming } };
  }

  stream_step-tail :
      (rs : ReplicationStatus) (s : Pass)
      → stream_step k api rs s
        ≡ tail k api rs
            (lag_below rs.lag_bytes (max_catchup_lag_bytes s.m))
            (lag_seen_below k (marked s).m)
            (marked s)
  unfolding stream_step tail marked set_condition modify status gets ◌>>=◌
  stream_step-tail rs s = refl

  seen-marked : (s : Pass) → lag_seen_below k (marked s).m ≡ lag_seen_below k s.m
  unfolding marked
  seen-marked s = ap (below_latch k) (L.find-set s.m.status.conditions _ caught_up)

  -- A step over a streaming worker asks the source once at most to set the endpos, and only when the
  -- cutover is due: no endpos is recorded, this sample's lag and the previous one's are below the
  -- limit of the spec, and the mode is Automatic or the cutover approved.
  pub stream_step-freezes :
      (rs : ReplicationStatus) (s : Pass)
      → (freezes (stream_step k api rs s).1 ≡ freezes s)
        ⊎ ((freezes (stream_step k api rs s).1 ≡ suc (freezes s)) × IsDue k rs s.m)
  unfolding marked
  stream_step-freezes rs s =
      rw (stream_step-tail rs s)
        (elim (((tail-Freezing k api rs (lag_below rs.lag_bytes (max_catchup_lag_bytes s.m))
            (lag_seen_below k (marked s).m)).at
          (marked s)).outcome) [
            | inl q ↦ inl q
            | inr (q, e, w) ↦
                let (b, c, d) = wanted-lem s.m.spec.cutover.mode s.m.spec.cutover.approved _ _ w in
                inr (
                  q,
                  record {
                    unset = e;
                    below = b;
                    confirmed = sym (seen-marked s) ∙ c;
                    wanted_by = d;
                  },
                )
          ])
