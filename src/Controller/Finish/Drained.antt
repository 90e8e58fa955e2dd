-- ===== src/Controller/Finish/Drained.antt =====
-- The end of a live migration: what becomes of Complete and CutoverComplete.
use pgcopydb_operator.Prelude.{
  ◌≡◌, refl, ◌∙◌, sym, inl, inr, true, false, Option, none, some, if◌then◌else◌, arith,
}
use pgcopydb_operator.Migration.Conditions.{
  ConditionApi, IsLawful, complete, cutover_complete, drain_verified, yes_true, Verdict, Reason,
}
use pgcopydb_operator.Platform.Types.{Result, ok, err, Next, Api}
use pgcopydb_operator.Platform.Exec.{Pass, Exec, modify, ◌>>=◌, continue}
use pgcopydb_operator.Platform.Exec.Keeps.{
  Keeps, Ends, Same, Same-IsPreorder, IsPreorder, Ends-of, Ends-goal, Ends-if, Ends-bind,
  Keeps-bind, Keeps-if,
}
use pgcopydb_operator.Controller.Jobs.{Finish, job_running, job_succeeded, job_has_failed}
use pgcopydb_operator.Controller.Status.{condition, holds, set_condition}
use pgcopydb_operator.Controller.Status.Calm.{update_status-Still}
use pgcopydb_operator.Controller.Frame.{
  Still, Calm, Keeps-weaken, is_true-set, is_true-set_ne, still_rules,
}
use pgcopydb_operator.Controller.Hold.Calm.{fail-Still}
use pgcopydb_operator.Controller.Rehearsal.Calm.{cancel_rehearsal-Still}
use pgcopydb_operator.Controller.Rehearsal.Drain.Calm.{Steady, drain_waits_for_rehearsal-Steady}
use pgcopydb_operator.Controller.Reown.Calm.{reown_gate-Calm}
use pgcopydb_operator.Controller.Verification.Calm.{ensure_verification-Calm}
use pgcopydb_operator.Controller.Finish.Stages.{ensure_cleanup}
use pgcopydb_operator.Controller.Finish.Stages.Calm.{ensure_verify-Calm, ensure_cleanup-Calm}
use pgcopydb_operator.Controller.Finish.{
  answered, waiting, done_with, complete_now, verify_then, follow_verified, after_drain,
  finish_follow,
}

module _ (k : ConditionApi) where
  -- CutoverComplete stays true.
  record Sealed (s t : Pass) : Type 0 where
    kept : holds k s.m cutover_complete ≡ true → holds k t.m cutover_complete ≡ true

  Sealed-IsPreorder : IsPreorder Sealed
  Sealed-IsPreorder = record {
    same = λ s. record { kept = λ h. h };
    chain = λ s t u p q. record { kept = λ h. q.kept (p.kept h) };
  }

  Calm-Sealed : {A : Type 0} (m : Exec A) → Keeps (Calm k) m → Keeps Sealed m
  Calm-Sealed m h = record { at = λ s. record { kept = λ e. (h.at s).core.cutover ∙ e } }

  Still-Sealed : {A : Type 0} (m : Exec A) → Keeps (Still k) m → Keeps Sealed m
  Still-Sealed m h = Calm-Sealed m (Keeps-weaken k m h)

  -- Whether Complete is true stays as it was.
  abbrev Unchanged : Pass → Pass → Type 0
  Unchanged = Same (λ s. holds k s.m complete)

  Unchanged-IsPreorder : IsPreorder Unchanged
  Unchanged-IsPreorder = Same-IsPreorder (λ s. holds k s.m complete)

  abbrev Proven : Pass → Type 0
  Proven t = holds k t.m cutover_complete ≡ true

  Calm-Unchanged : {A : Type 0} (m : Exec A) → Keeps (Calm k) m → Keeps Unchanged m
  Calm-Unchanged m h = record { at = λ s. (h.at s).core.complete }

  Still-Unchanged : {A : Type 0} (m : Exec A) → Keeps (Still k) m → Keeps Unchanged m
  Still-Unchanged m h = record { at = λ s. (h.at s).core.complete }

  Steady-Unchanged : {A : Type 0} (m : Exec A) → Keeps (Steady k) m → Keeps Unchanged m
  Steady-Unchanged m h = record { at = λ s. (h.at s).complete }

  Proven-continue :
      {A B : Type 0} (r : Result A) (f : A → Exec B) (t : Pass)
      → Proven t
      → ((a : A) → Keeps Sealed (f a))
      → Proven (continue r f t).1
  Proven-continue (err e) f t h kf = h
  Proven-continue (ok a) f t h kf = ((kf a).at t).kept h

  module _ (L : IsLawful k) where
    set_complete-Sealed : (v : Verdict) (r : Reason) → Keeps Sealed (set_condition k complete v r)
    unfolding set_condition modify
    set_complete-Sealed v r = record {
      at = λ s. record {
        kept = λ h.
            is_true-set_ne k L s.m.status.conditions (condition k s.m complete v r) cutover_complete
              refl
            ∙ h;
      };
    }

    set_cutover-Unchanged :
        (v : Verdict) (r : Reason) → Keeps Unchanged (set_condition k cutover_complete v r)
    unfolding set_condition modify
    set_cutover-Unchanged v r = record {
      at = λ s.
          is_true-set_ne k L s.m.status.conditions (condition k s.m cutover_complete v r) complete
            refl;
    }

    set_cutover-Proven :
        (s : Pass) (r : Reason) → Proven (set_condition k cutover_complete yes_true r s).1
    unfolding set_condition modify
    set_cutover-Proven s r =
        is_true-set k L s.m.status.conditions (condition k s.m cutover_complete yes_true r)
          cutover_complete

    module _ (api : Api) where
      waiting-Still : Keeps (Still k) (waiting k api)
      unfolding waiting
      waiting-Still = search (still_rules, update_status-Still) depth 14

      done_with-Still : Keeps (Still k) (done_with k api)
      unfolding done_with
      done_with-Still = search (still_rules, update_status-Still) depth 14

      complete_now-Sealed : Keeps Sealed (complete_now k api)
      unfolding complete_now
      complete_now-Sealed =
          search
            (still_rules, Sealed-IsPreorder, Still-Sealed, set_complete-Sealed, done_with-Still)
            depth 16

      verify_then-Sealed : Keeps Sealed (verify_then k api (complete_now k api))
      unfolding verify_then
      verify_then-Sealed =
          search
            (
              Keeps-bind, Keeps-if, Sealed-IsPreorder, Calm-Sealed, Still-Sealed,
              ensure_verification-Calm, complete_now-Sealed, waiting-Still,
            )
            depth 14

      cleaned-Sealed : Keeps Sealed (
          ensure_cleanup api >>= λ c.
          if c then verify_then k api (complete_now k api) else waiting k api)
      cleaned-Sealed =
          search
            (
              Keeps-bind, Keeps-if, Sealed-IsPreorder, Calm-Sealed, Still-Sealed,
              ensure_cleanup-Calm, verify_then-Sealed, waiting-Still,
            )
            depth 14

      follow_verified-Proven : (s : Pass) → Proven (follow_verified k api s).1
      unfolding follow_verified ◌>>=◌
      follow_verified-Proven s =
          let (r, t) = set_condition k cutover_complete yes_true drain_verified s in
          Proven-continue r
            (λ _. ensure_cleanup api >>= λ c.
              if c then verify_then k api (complete_now k api) else waiting k api)
            t (set_cutover-Proven s drain_verified) (λ u. cleaned-Sealed)

      answered-Ends : (o : Option Next) → Ends Unchanged Proven (answered o (follow_verified k api))
      answered-Ends none = Ends-goal _ follow_verified-Proven
      answered-Ends (some n) = Ends-of _ (search (still_rules, Still-Unchanged))

      waiting-Ends : Ends Unchanged Proven (waiting k api)
      waiting-Ends = Ends-of _ (Still-Unchanged _ waiting-Still)

      after_drain-Ends : (f : Finish) → Ends Unchanged Proven (after_drain k api f)
      unfolding after_drain
      after_drain-Ends job_running = waiting-Ends
      after_drain-Ends job_has_failed =
          search
            (
              still_rules, Ends-of, Unchanged-IsPreorder, Still-Unchanged, set_cutover-Unchanged,
              fail-Still, done_with-Still,
            )
            depth 14
      after_drain-Ends job_succeeded =
          search (Ends-bind, Unchanged-IsPreorder, Calm-Unchanged, reown_gate-Calm, answered-Ends)
            depth 14

      finish_follow-Ends : Ends Unchanged Proven (finish_follow k api)
      unfolding finish_follow
      finish_follow-Ends =
          search
            (
              still_rules, Ends-bind, Ends-if, Unchanged-IsPreorder, Still-Unchanged,
              Calm-Unchanged, Steady-Unchanged, cancel_rehearsal-Still,
              drain_waits_for_rehearsal-Steady, ensure_verify-Calm, after_drain-Ends, waiting-Ends,
            )
            depth 20 fits 20000

      -- finishFollow makes Complete true only together with CutoverComplete: where Complete was not
      -- true before the step and is true after it, CutoverComplete is true after it.
      pub finish_follow-drained :
          (s : Pass)
          → holds k s.m complete ≡ false
          → holds k (finish_follow k api s).1.m complete ≡ true
          → holds k (finish_follow k api s).1.m cutover_complete ≡ true
      finish_follow-drained s h c = elim (finish_follow-Ends.at s) [
        | inl q ↦ ground (arith, sym c ∙ q ∙ h)
        | inr g ↦ g
      ]
