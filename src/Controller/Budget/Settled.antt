-- ===== src/Controller/Budget/Settled.antt =====
-- What settling the budget answers and leaves behind.
use pgcopydb_operator.Prelude.{
  ◌≡◌, refl, ◌∙◌, sym, ap, Bool, true, false, ◌&&◌, ◌||◌, if◌then◌else◌, Option, none, some,
  is_some, Bool-cases, inl, inr,
}
use pgcopydb_operator.Migration.{RetryGateStatus, Phase, counted}
use pgcopydb_operator.Migration.Conditions.{
  ConditionApi, IsLawful, ConditionType, same_type, Verdict, yes_true, no_false, Reason,
  clone_completed, clone_failed, backoff_limit_exceeded, hold_migration_failed,
}
use pgcopydb_operator.Platform.Types.{Result, ok, err, Call, Api}
use pgcopydb_operator.Platform.Exec.{
  Pass, Exec, pure, skip, say, modify, status, when, gets, ◌>>=◌, ◌>>◌, continue,
}
use pgcopydb_operator.Platform.Exec.Answers.{Answers, answer_rules}
use pgcopydb_operator.Platform.Exec.Keeps.{Keeps, IsPreorder, keeps_rules}
use pgcopydb_operator.Controller.Status.{
  holds, condition, put_condition, set_condition, emit, patch, observe_generation, rebase,
  patch_status_locked,
}
use pgcopydb_operator.Controller.Hold.{end_hold, fail}
use pgcopydb_operator.Controller.Frame.{is_true-set, is_true-set_ne}
use pgcopydb_operator.Controller.Budget.{
  decided, on_failure_path, undecided_in, failed_this_attempt, budget_spent, fail_budget,
  settle_budget,
}

module _ (k : ConditionApi) where
  -- The phase, the truth of Failed and the verdict stay.
  record Leaves (s t : Pass) : Type 0 where
    phase : t.m.status.phase ≡ s.m.status.phase
    failed : holds k t.m ConditionType.failed ≡ holds k s.m ConditionType.failed
    verdict : t.m.status.retry_gate ≡ s.m.status.retry_gate
    attempts : t.m.status.attempts ≡ s.m.status.attempts

  Leaves-IsPreorder : IsPreorder Leaves
  Leaves-IsPreorder = record {
    same = λ s. record { phase = refl; failed = refl; verdict = refl; attempts = refl };
    chain = λ s t u p q. record {
      phase = q.phase ∙ p.phase;
      failed = q.failed ∙ p.failed;
      verdict = q.verdict ∙ p.verdict;
      attempts = q.attempts ∙ p.attempts;
    };
  }

  say-Leaves : (c : Call) → Keeps Leaves (say c)
  unfolding say
  say-Leaves c = record {
    at = λ s. record { phase = refl; failed = refl; verdict = refl; attempts = refl };
  }

  -- The Migration failed, with the verdict as it was.
  record Fails (s t : Pass) : Type 0 where
    phase : t.m.status.phase ≡ Phase.failed
    failed : holds k t.m ConditionType.failed ≡ true
    verdict : t.m.status.retry_gate ≡ s.m.status.retry_gate
    attempts : t.m.status.attempts ≡ s.m.status.attempts

  Fails-Leaves : (s t u : Pass) → Fails s t → Leaves t u → Fails s u
  Fails-Leaves s t u p q = record {
    phase = q.phase ∙ p.phase;
    failed = q.failed ∙ p.failed;
    verdict = q.verdict ∙ p.verdict;
    attempts = q.attempts ∙ p.attempts;
  }

  Leaves-Fails : (s t u : Pass) → Leaves s t → Fails t u → Fails s u
  Leaves-Fails s t u p q = record {
    phase = q.phase;
    failed = q.failed;
    verdict = q.verdict ∙ p.verdict;
    attempts = q.attempts ∙ p.attempts;
  }

  module _ (L : IsLawful k) where
    set_condition-Leaves :
        (t : ConditionType) (v : Verdict) (r : Reason)
        → same_type t ConditionType.failed ≡ false
        → Keeps Leaves (set_condition k t v r)
    unfolding set_condition modify
    set_condition-Leaves t v r h = record {
      at = λ s. record {
        phase = refl;
        failed =
            is_true-set_ne k L s.m.status.conditions (condition k s.m t v r) ConditionType.failed h;
        verdict = refl;
        attempts = refl;
      };
    }

    after_failed-Leaves :
        Keeps Leaves (end_hold k hold_migration_failed >> emit true backoff_limit_exceeded)
    unfolding end_hold
    after_failed-Leaves =
        search (keeps_rules, Leaves-IsPreorder, say-Leaves, set_condition-Leaves) depth 12

    -- The pass once it is marked as failed.
    marked : Pass → Pass
    marked s = record s {
      m =
          let m = record s.m { status = record s.m.status { phase = Phase.failed } } in
          put_condition k (condition k m ConditionType.failed yes_true backoff_limit_exceeded) m;
    }

    marked-Fails : (s : Pass) → Fails s (marked s)
    unfolding marked
    marked-Fails s = record {
      phase = refl;
      failed = is_true-set k L s.m.status.conditions _ ConditionType.failed;
      verdict = refl;
      attempts = refl;
    }

    fail-Fails : (s : Pass) → Fails s (fail k backoff_limit_exceeded s).1
    unfolding fail marked set_condition modify status ◌>>=◌
    fail-Fails s = Fails-Leaves s (marked s) _ (marked-Fails s) (after_failed-Leaves.at (marked s))

    fail_budget-Fails : (s : Pass) → Fails s (fail_budget k s).1
    unfolding fail_budget set_condition modify skip gets ◌>>=◌
    fail_budget-Fails s = elim (Bool-cases (is_some s.m.status.retry_gate)) [
      | inl q ↦
          rw (q, fail_budget)
            (Leaves-Fails s (set_condition k clone_completed no_false clone_failed s).1 _
              ((set_condition-Leaves clone_completed no_false clone_failed refl).at s)
              (fail-Fails (set_condition k clone_completed no_false clone_failed s).1))
      | inr q ↦ rw (q, fail_budget) (fail-Fails s)
    ]

    module _ (api : Api) where
      observe-Leaves : Keeps Leaves (observe_generation api)
      unfolding observe_generation modify
      observe-Leaves = record {
        at = λ s. record { phase = refl; failed = refl; verdict = refl; attempts = refl };
      }

      rebase-Leaves : Keeps Leaves (rebase api)
      unfolding rebase
      rebase-Leaves = record {
        at = λ s. record { phase = refl; failed = refl; verdict = refl; attempts = refl };
      }

      patch-Leaves : {A : Type 0} (a : A) → Keeps Leaves (patch_status_locked api >> pure a)
      unfolding patch_status_locked patch
      patch-Leaves a =
          search (keeps_rules, Leaves-IsPreorder, say-Leaves, observe-Leaves, rebase-Leaves) depth
            14

      -- settleBudget behind the verdict.
      closing : Bool → Exec Bool
      closing spent = do when spent (fail_budget k); patch_status_locked api; pure spent

      closing-Answers : (b : Bool) → Answers b (closing b)
      unfolding closing
      closing-Answers b = search answer_rules depth 8

      closed-continue :
          {A : Type 0} (r : Result A) (s t : Pass)
          → Fails s t
          → Fails s (continue r (λ u. patch_status_locked api >> pure true) t).1
      closed-continue (ok a) s t f = Fails-Leaves s t _ f ((patch-Leaves true).at t)
      closed-continue (err e) s t f = f

      -- What settleBudget leaves where it answers `spent`.
      pub record IsSettled (s t : Pass) (spent : Bool) : Type 0 where
        pub answer : spent ≡ budget_spent s.m
        pub phase : t.m.status.phase ≡ (if spent then Phase.failed else s.m.status.phase)
        pub failed : holds k t.m ConditionType.failed ≡ (spent || holds k s.m ConditionType.failed)
        pub verdict : on_failure_path t.m && undecided_in t.m.status.retry_gate ≡ false

      -- The verdict was decided before.
      settled_verdict :
          (s t : Pass)
          → on_failure_path s.m && undecided_in s.m.status.retry_gate ≡ false
          → t.m.status.retry_gate ≡ s.m.status.retry_gate
          → t.m.status.attempts ≡ s.m.status.attempts
          → on_failure_path t.m && undecided_in t.m.status.retry_gate ≡ false
      settled_verdict s t h g a =
          ap (λ x. failed_this_attempt t.m.status.attempts x && undecided_in x) g
          ∙ ap
              (λ n.
                failed_this_attempt n s.m.status.retry_gate && undecided_in s.m.status.retry_gate)
              a
          ∙ h

      closing-IsSettled :
          (b : Bool) (s : Pass)
          → budget_spent s.m ≡ b
          → on_failure_path s.m && undecided_in s.m.status.retry_gate ≡ false
          → (c : Bool) → (closing b s).0 ≡ ok c
          → IsSettled s (closing b s).1 c
      unfolding closing skip ◌>>=◌
      closing-IsSettled true s e h c q =
          let f : Fails s (closing true s).1 =
            closed-continue (fail_budget k s).0 s (fail_budget k s).1 (fail_budget-Fails s) in
          let d : c ≡ true = (closing-Answers true).answer s c q in
          rw d (record {
            answer = sym e;
            phase = f.phase;
            failed = f.failed;
            verdict = settled_verdict s (closing true s).1 h f.verdict f.attempts;
          })
      closing-IsSettled false s e h c q =
          let f : Leaves s (closing false s).1 = (patch-Leaves false).at s in
          let d : c ≡ false = (closing-Answers false).answer s c q in
          rw d (record {
            answer = sym e;
            phase = f.phase;
            failed = f.failed;
            verdict = settled_verdict s (closing false s).1 h f.verdict f.attempts;
          })

      -- The pass with the verdict written.
      abbrev verdict_written : Pass → Pass
      verdict_written s = record s {
        m = record s.m {
          status = record s.m.status { retry_gate = decided counted s.m.status.retry_gate };
        };
      }

      written_decided :
          (n : Bool) (r : Option RetryGateStatus) → n && undecided_in (decided counted r) ≡ false
      written_decided true none = refl
      written_decided true (some r) = refl
      written_decided false r = refl

      from_written :
          (s : Pass) (c : Bool) {t : Pass} → IsSettled (verdict_written s) t c → IsSettled s t c
      unfolding budget_spent
      from_written s c h = record {
        answer = h.answer;
        phase = h.phase;
        failed = h.failed;
        verdict = h.verdict;
      }

      -- Where settleBudget returns no error, it answers whether the counters of the Migration spend
      -- the budget; if so the Migration is Failed, in condition and phase, else both stay; and the
      -- verdict on the last failure is no longer open.
      pub settle_budget-IsSettled :
          (s : Pass) (c : Bool)
          → (settle_budget k api s).0 ≡ ok c
          → IsSettled s (settle_budget k api s).1 c
      unfolding settle_budget closing skip status gets budget_spent ◌>>=◌
      settle_budget-IsSettled s c e =
          elim (Bool-cases (on_failure_path s.m && undecided_in s.m.status.retry_gate)) [
            | inl q ↦
                rw (q, settle_budget)
                  (from_written s c (
                    closing-IsSettled (budget_spent s.m) (verdict_written s) refl
                      (written_decided _ s.m.status.retry_gate) c ((rw (q, settle_budget) at e))))
            | inr q ↦
                rw (q, settle_budget)
                  (closing-IsSettled (budget_spent s.m) s refl q c ((rw (q, settle_budget) at e)))
          ]
