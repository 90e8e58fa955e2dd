-- ===== src/Controller/Attempt/Spent.antt =====
-- What becomes of an attempt whose budget is spent and decided.
use pgcopydb_operator.Prelude.{ℕ, ◌≡◌, ◌∙◌, ap, Bool, true, false, ◌&&◌, ◌||◌, not, if◌then◌else◌}
use pgcopydb_operator.Prelude.Word.{lt32}
use pgcopydb_operator.Migration.{Migration}
use pgcopydb_operator.Migration.Conditions.{ConditionApi, IsLawful}
use pgcopydb_operator.Platform.Types.{not_found, Result, ok, err, Job, Trace, Next, finished, Api}
use pgcopydb_operator.Platform.Exec.{Pass, Exec, pure, gets, ask, ◌>>=◌, ◌>>◌}
use pgcopydb_operator.Platform.Exec.Keeps.{Keeps}
use pgcopydb_operator.Controller.Frame.{workers}
use pgcopydb_operator.Controller.Onward.{Quiet, Still-Quiet, quiet_rules}
use pgcopydb_operator.Controller.Status.{update_status}
use pgcopydb_operator.Controller.Status.Calm.{update_status-Still}
use pgcopydb_operator.Controller.Budget.{on_failure_path, undecided_in, budget_spent, fail_budget}
use pgcopydb_operator.Controller.Budget.Calm.{fail_budget-Still}
use pgcopydb_operator.Controller.Attempt.{
  gated_attempt, create_worker, unrecorded_checked, unrecorded, start_attempt,
}
use pgcopydb_operator.Controller.Attempt.Onward.{record_attempt-Quiet}

-- The budget is spent, and no verdict on the last failure is open.
abbrev pub is_spent : Migration → Bool
is_spent m = (not (on_failure_path m) || not (undecided_in m.status.retry_gate)) && budget_spent m

record Spent (s t : Pass) : Type 0 where
  works : is_spent s.m ≡ true → workers t ≡ workers s

module _ {A : Type 0} where
  Spent-Quiet : (m : Exec A) → Keeps Quiet m → Keeps Spent m
  Spent-Quiet m h = record { at = λ s. record { works = λ g. (h.at s).works } }

  Spent-if :
      (b : Bool) (m n : Exec A) → Keeps Spent m → Keeps Spent n → Keeps Spent (if b then m else n)
  Spent-if true m n h i = h
  Spent-if false m n h i = i

module _ {A B : Type 0} where
  Spent-gets :
      (f : Pass → A) (g : A → Exec B) → ((a : A) → Keeps Spent (g a)) → Keeps Spent (gets f >>= g)
  unfolding ◌>>=◌
  Spent-gets f g h = record { at = λ s. (h (f s)).at s }

  Spent-ask :
      (f : Trace → A) (g : A → Exec B) → ((a : A) → Keeps Spent (g a)) → Keeps Spent (ask f >>= g)
  unfolding ◌>>=◌
  Spent-ask f g h = record { at = λ s. (h (f s.calls)).at s }

module _ (k : ConditionApi) (L : IsLawful k) (api : Api) where
  over : Exec Next
  unfolding ◌>>=◌
  over = do fail_budget k; update_status api; pure finished

  over-Quiet : Keeps Quiet over
  unfolding over
  over-Quiet = search (quiet_rules, Still-Quiet k, fail_budget-Still, update_status-Still) depth 14

  -- The rest of an attempt, where the budget is not over.
  rest : ℕ → Exec Next
  rest n = if lt32 1 n then gated_attempt k api n else create_worker k api n

  unrecorded_checked-Spent : (n : ℕ) → Keeps Spent (unrecorded_checked k api n)
  unfolding unrecorded_checked over rest ◌>>=◌
  unrecorded_checked-Spent n = record {
    at = λ s. record {
      works = λ g. ap (λ b. workers ((if b then over else rest n) s).1) g ∙ (over-Quiet.at s).works;
    };
  }

  unrecorded-Spent : (n : ℕ) (r : Result Job) → Keeps Spent (unrecorded k api n r)
  unfolding unrecorded
  unrecorded-Spent n (ok job) = Spent-Quiet _ (record_attempt-Quiet k L api job.name false)
  unrecorded-Spent n (err not_found) = unrecorded_checked-Spent n
  unrecorded-Spent n (err _) = search (quiet_rules, Spent-Quiet)

  start_attempt-Spent : Keeps Spent (start_attempt k api)
  unfolding start_attempt
  start_attempt-Spent =
      search (Spent-gets, Spent-ask, Spent-if, unrecorded_checked-Spent, unrecorded-Spent) depth 12

  -- startAttempt creates no worker where the budget is spent and no verdict on the last failure is
  -- open, whatever Job of the next attempt the API shows.
  pub start_attempt-spent :
      (s : Pass) → is_spent s.m ≡ true → workers (start_attempt k api s).1 ≡ workers s
  start_attempt-spent s h = (start_attempt-Spent.at s).works h
