-- ===== src/Controller/Reconcile/Dry.antt =====
-- A dry run ends behind the preflight, before any attempt.
use pgcopydb_operator.Prelude.{◌≡◌, ◌∙◌, ap, Bool, true, false, Option, none, some, if◌then◌else◌}
use pgcopydb_operator.Migration.{Migration, Time}
use pgcopydb_operator.Migration.Conditions.{ConditionApi, IsLawful}
use pgcopydb_operator.Platform.Types.{Result, ok, err, Next, Api}
use pgcopydb_operator.Platform.Exec.{Pass, Exec, gets, ◌>>=◌, continue}
use pgcopydb_operator.Platform.Exec.Keeps.{Keeps}
use pgcopydb_operator.Controller.Frame.{workers, Calm, calm_rules}
use pgcopydb_operator.Controller.Onward.{Quiet, Calm-Quiet, quiet_rules}
use pgcopydb_operator.Controller.Status.Calm.{update_status-Still}
use pgcopydb_operator.Controller.Hold.Calm.{fail-Still}
use pgcopydb_operator.Controller.Finish.{answered}
use pgcopydb_operator.Controller.Reconcile.{after_gate, active_pass}
use pgcopydb_operator.Controller.Reconcile.Calm.{
  ensure_finalizer-Still, ensure_owned-Still, preflight_gate-Calm,
}
use pgcopydb_operator.Controller.Reconcile.Onward.{complete_dry_run-Quiet}

pub record Dry (s t : Pass) : Type 0 where
  pub works : s.m.spec.dry_run ≡ true → workers t ≡ workers s

module _ {A : Type 0} where
  Dry-Quiet : (m : Exec A) → Keeps Quiet m → Keeps Dry m
  Dry-Quiet m h = record { at = λ s. record { works = λ d. (h.at s).works } }

  Dry-if : (b : Bool) (m n : Exec A) → Keeps Dry m → Keeps Dry n → Keeps Dry (if b then m else n)
  Dry-if true m n h i = h
  Dry-if false m n h i = i

  -- A method that reads the object and then tests whether it is a dry run.
  Dry-test :
      (m : Migration → Exec A) (n : Migration → Exec A)
      → ((x : Migration) → Keeps Quiet (m x))
      → Keeps Dry (gets (λ s. s.m) >>= λ x. if x.spec.dry_run then m x else n x)
  unfolding ◌>>=◌
  Dry-test m n h = record {
    at = λ s. record {
      works = λ d. ap (λ b. workers ((if b then m s.m else n s.m) s).1) d ∙ ((h s.m).at s).works;
    };
  }

module _ {A B : Type 0} (k : ConditionApi) where
  Dry-continue :
      (r : Result A) (f : A → Exec B) (s t : Pass)
      → Calm k s t
      → ((a : A) → Keeps Dry (f a))
      → Dry s (continue r f t).1
  Dry-continue (ok a) f s t c h = record {
    works = λ d. ((h a).at t).works (ap (λ x. x.dry_run) c.core.spec ∙ d) ∙ c.works;
  }
  Dry-continue (err e) f s t c h = record { works = λ d. c.works }

  Dry-left :
      (m : Exec A) (f : A → Exec B)
      → Keeps (Calm k) m
      → ((a : A) → Keeps Dry (f a))
      → Keeps Dry (m >>= f)
  unfolding ◌>>=◌
  Dry-left m f h i = record { at = λ s. let (r, t) = m s in Dry-continue r f s t (h.at s) i }

module _ (k : ConditionApi) (L : IsLawful k) (api : Api) where
  after_gate-Dry : (t : Time) → Keeps Dry (after_gate k api t)
  unfolding after_gate
  after_gate-Dry t = search (calm_rules, Dry-left k, Dry-test, complete_dry_run-Quiet) depth 14

  answered-Dry : (o : Option Next) (m : Exec Next) → Keeps Dry m → Keeps Dry (answered o m)
  answered-Dry none m h = h
  answered-Dry (some n) m h = search (quiet_rules, Dry-Quiet)

  pub active_pass-Dry : (t : Time) → Keeps Dry (active_pass k api t)
  unfolding active_pass
  active_pass-Dry t =
      search
        (
          calm_rules,
          Dry-left k,
          Dry-if,
          Dry-Quiet,
          Calm-Quiet k,
          fail-Still,
          update_status-Still,
          ensure_finalizer-Still,
          ensure_owned-Still,
          preflight_gate-Calm,
          answered-Dry,
          after_gate-Dry,
        )
        depth 20
