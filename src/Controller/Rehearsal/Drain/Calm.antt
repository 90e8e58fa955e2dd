-- ===== src/Controller/Rehearsal/Drain/Calm.antt =====
-- A drain that waits creates nothing and leaves Complete alone; it may write CutoverComplete.
use pgcopydb_operator.Prelude.{◌≡◌, refl, ◌∙◌, sym, ap, Bool, false, Option, none, some, List}
use pgcopydb_operator.Migration.Conditions.{
  ConditionApi, IsLawful, ConditionType, complete, cutover_complete, has_status, verdict_true,
  Verdict, Reason, Condition, same_type,
}
use pgcopydb_operator.Platform.Types.{Pod, Api}
use pgcopydb_operator.Platform.Exec.{Pass, Exec, modify}
use pgcopydb_operator.Platform.Exec.Keeps.{Keeps, IsPreorder, keeps_rules}
use pgcopydb_operator.Controller.Status.{condition, holds, set_condition}
use pgcopydb_operator.Controller.Frame.{
  Still, workers, workers_in, freezes, is_true-set_ne, say-Still,
}
use pgcopydb_operator.Controller.Onward.{Quiet, endpos_in}
use pgcopydb_operator.Controller.Rehearsal.Calm.{rehearsal_pod-Still}
use pgcopydb_operator.Controller.Rehearsal.Drain.{hold_drain, drain_waits_for_rehearsal}

module _ (k : ConditionApi) where
  pub record Steady (s t : Pass) : Type 0 where
    pub spec : t.m.spec ≡ s.m.spec
    pub replication : t.m.status.replication ≡ s.m.status.replication
    pub complete : holds k t.m ConditionType.complete ≡ holds k s.m ConditionType.complete
    pub works : workers t ≡ workers s
    pub freezes : freezes t ≡ freezes s

  Steady-IsPreorder : IsPreorder Steady
  Steady-IsPreorder = record {
    same = λ s. record {
      spec = refl;
      replication = refl;
      complete = refl;
      works = refl;
      freezes = refl;
    };
    chain = λ s t u p q. record {
      spec = q.spec ∙ p.spec;
      replication = q.replication ∙ p.replication;
      complete = q.complete ∙ p.complete;
      works = q.works ∙ p.works;
      freezes = q.freezes ∙ p.freezes;
    };
  }

  Still-Steady : {A : Type 0} (m : Exec A) → Keeps (Still k) m → Keeps Steady m
  Still-Steady m h = record {
    at = λ s. record {
      spec = (h.at s).core.spec;
      replication = (h.at s).core.replication;
      complete = (h.at s).core.complete;
      works = ap workers_in ((h.at s).creates);
      freezes = (h.at s).freezes;
    };
  }

  pub Steady-Quiet : {A : Type 0} (m : Exec A) → Keeps Steady m → Keeps Quiet m
  Steady-Quiet m h = record {
    at = λ s. record {
      onward = record {
        spec = (h.at s).spec;
        endpos = λ e. (ap endpos_in ((h.at s).replication), (h.at s).freezes);
      };
      works = (h.at s).works;
    };
  }

  module _ (L : IsLawful k) where
    remove-is_true :
        (cs : List Condition)
        → k.is_true (k.remove cs cutover_complete) complete ≡ k.is_true cs complete
    remove-is_true cs =
        L.is_true-find (k.remove cs cutover_complete) complete
        ∙ ap (has_status verdict_true) (L.find-remove cs cutover_complete complete)
        ∙ sym (L.is_true-find cs complete)

    remove-Steady : Keeps Steady (
        modify (λ m. record m {
          status = record m.status { conditions = k.remove m.status.conditions cutover_complete };
        }))
    unfolding modify
    remove-Steady = record {
      at = λ s. record {
        spec = refl;
        replication = refl;
        complete = remove-is_true s.m.status.conditions;
        works = refl;
        freezes = refl;
      };
    }

    set_condition-Steady :
        (t : ConditionType) (v : Verdict) (r : Reason)
        → same_type t complete ≡ false
        → Keeps Steady (set_condition k t v r)
    unfolding set_condition modify
    set_condition-Steady t v r h = record {
      at = λ s. record {
        spec = refl;
        replication = refl;
        complete = is_true-set_ne k L s.m.status.conditions (condition k s.m t v r) complete h;
        works = refl;
        freezes = refl;
      };
    }

    module _ (api : Api) where
      hold_drain-Steady : (b : Bool) (p : Option Pod) → Keeps Steady (hold_drain k api b p)
      unfolding hold_drain
      hold_drain-Steady b none = search (keeps_rules, Steady-IsPreorder, remove-Steady) depth 14
      hold_drain-Steady b (some p) =
          search (keeps_rules, Steady-IsPreorder, Still-Steady, say-Still, set_condition-Steady)
            depth 14

      pub drain_waits_for_rehearsal-Steady : Keeps Steady (drain_waits_for_rehearsal k api)
      unfolding drain_waits_for_rehearsal
      drain_waits_for_rehearsal-Steady =
          search
            (keeps_rules, Steady-IsPreorder, Still-Steady, rehearsal_pod-Still, hold_drain-Steady)
            depth 14
