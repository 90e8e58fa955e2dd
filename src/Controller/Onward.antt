-- ===== src/Controller/Onward.antt =====
-- What every method of a pass respects, also those that the frame of `Controller.Frame` leaves out:
-- the spec stays, and where an endpos is recorded it stays as it is and the stream
-- is not frozen again (`Onward`). A quiet method does so and creates
-- no worker.
use pgcopydb_operator.Prelude.{
  ◌≡◌, refl, ◌∙◌, sym, ap, Bool, true, false, Option, none, some, List, [], ◌∷◌, arith,
}
use pgcopydb_operator.Migration.{Migration, MigrationStatus, ReplicationStatus, Lsn, no_lsn}
use pgcopydb_operator.Sentinel.{endpos_set}
use pgcopydb_operator.Migration.Conditions.{ConditionApi, ConditionType, Verdict, Reason}
use pgcopydb_operator.Platform.Types.{Call}
use pgcopydb_operator.Platform.Exec.{Pass, Exec, say, modify, status}
use pgcopydb_operator.Platform.Exec.Keeps.{Keeps, IsPreorder, keeps_rules}
use pgcopydb_operator.Controller.Status.{condition, put_condition, set_condition}
use pgcopydb_operator.Controller.Hold.{has_endpos}
use pgcopydb_operator.Controller.Frame.{
  workers, workers_in, is_create, is_freeze, freezes, freezes-say, created-say, Still, Calm,
  Keeps-weaken,
}

-- The recorded position at which the stream is frozen.
abbrev pub endpos_in : Option ReplicationStatus → Lsn
endpos_in none = no_lsn
endpos_in (some r) = r.endpos

has_endpos-in : (r : Option ReplicationStatus) → has_endpos r ≡ endpos_set (endpos_in r)
has_endpos-in none = refl
has_endpos-in (some r) = refl

-- A position that stays stays recorded.
pub same_endpos-has :
    (r o : Option ReplicationStatus)
    → endpos_in o ≡ endpos_in r
    → has_endpos r ≡ true
    → has_endpos o ≡ true
same_endpos-has r o e h = has_endpos-in o ∙ ap endpos_set e ∙ sym (has_endpos-in r) ∙ h

abbrev pub frozen_at : Pass → Lsn
frozen_at s = endpos_in s.m.status.replication

abbrev pub recorded : Pass → Bool
recorded s = has_endpos s.m.status.replication

pub record Onward (s t : Pass) : Type 0 where
  pub spec : t.m.spec ≡ s.m.spec
  pub endpos : recorded s ≡ true → (frozen_at t ≡ frozen_at s) × (freezes t ≡ freezes s)

pub Onward-IsPreorder : IsPreorder Onward
Onward-IsPreorder = record {
  same = λ s. record { spec = refl; endpos = λ h. (refl, refl) };
  chain = λ s t u p q. record {
    spec = q.spec ∙ p.spec;
    endpos = λ h.
        let (e, n) = p.endpos h in
        let (f, o) = q.endpos (same_endpos-has s.m.status.replication t.m.status.replication e h) in
        (f ∙ e, o ∙ n);
  };
}

pub record Quiet (s t : Pass) : Type 0 where
  pub onward : Onward s t
  pub works : workers t ≡ workers s

pub Quiet-IsPreorder : IsPreorder Quiet
Quiet-IsPreorder = record {
  same = λ s. record { onward = Onward-IsPreorder.same s; works = refl };
  chain = λ s t u p q. record {
    onward = Onward-IsPreorder.chain s t u p.onward q.onward;
    works = q.works ∙ p.works;
  };
}

pub say-Onward : (c : Call) → is_freeze c ≡ false → Keeps Onward (say c)
unfolding say
say-Onward c f = record {
  at = λ s. record { spec = refl; endpos = λ h. (refl, freezes-say c s.calls f) };
}

pub say-Quiet : (c : Call) → is_create c ≡ false → is_freeze c ≡ false → Keeps Quiet (say c)
unfolding say
say-Quiet c h f = record {
  at = λ s. record {
    onward = record { spec = refl; endpos = λ e. (refl, freezes-say c s.calls f) };
    works = ap workers_in (created-say c s.calls h);
  };
}

pub modify-Quiet :
    (f : Migration → Migration)
    → ((m : Migration) → (f m).spec ≡ m.spec)
    → ((m : Migration) → (f m).status.replication ≡ m.status.replication)
    → Keeps Quiet (modify f)
unfolding modify
modify-Quiet f h r = record {
  at = λ s. record {
    onward = record { spec = h s.m; endpos = λ e. (ap endpos_in (r s.m), refl) };
    works = refl;
  };
}

pub status-Quiet :
    (f : MigrationStatus → MigrationStatus)
    → ((st : MigrationStatus) → (f st).replication ≡ st.replication)
    → Keeps Quiet (status f)
unfolding status
status-Quiet f h = record {
  at = λ s. record {
    onward = record { spec = refl; endpos = λ e. (ap endpos_in (h s.m.status), refl) };
    works = refl;
  };
}

pub Quiet-Onward : {A : Type 0} (m : Exec A) → Keeps Quiet m → Keeps Onward m
Quiet-Onward m h = record { at = λ s. (h.at s).onward }

module _ (k : ConditionApi) where
  pub Calm-Quiet : {A : Type 0} (m : Exec A) → Keeps (Calm k) m → Keeps Quiet m
  Calm-Quiet m h = record {
    at = λ s. record {
      onward = record {
        spec = (h.at s).core.spec;
        endpos = λ e. (ap endpos_in ((h.at s).core.replication), (h.at s).freezes);
      };
      works = (h.at s).works;
    };
  }

  pub Still-Quiet : {A : Type 0} (m : Exec A) → Keeps (Still k) m → Keeps Quiet m
  Still-Quiet m h = Calm-Quiet m (Keeps-weaken k m h)

  pub set_condition-Quiet :
      (t : ConditionType) (v : Verdict) (r : Reason) → Keeps Quiet (set_condition k t v r)
  unfolding set_condition
  set_condition-Quiet t v r =
      modify-Quiet (λ m. put_condition k (condition k m t v r) m) (λ m. refl) (λ m. refl)

pub ruleset quiet_rules = (
  keeps_rules, Quiet-IsPreorder, say-Quiet, status-Quiet, modify-Quiet, set_condition-Quiet, refl,
)

pub ruleset onward_rules = (keeps_rules, Onward-IsPreorder, say-Onward, Quiet-Onward, quiet_rules)
