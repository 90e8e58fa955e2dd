-- ===== src/Controller/Gate/Safety.antt =====
-- The promise of the retry gate to the attempt behind it.
use pgcopydb_operator.Prelude.{
  ℕ, ◌≡◌, refl, ◌∙◌, sym, subst, arith, Bool, true, false, ◌&&◌, Option, none, some, if◌then◌else◌,
}
use pgcopydb_operator.Migration.{RetryGateStatus, Exemption, counted}
use pgcopydb_operator.Migration.Conditions.{ConditionApi, IsLawful}
use pgcopydb_operator.Platform.Types.{Call, ok, Api}
use pgcopydb_operator.Platform.Exec.{Pass, Exec, pure, say, modify, status, gets, when, ◌>>=◌, ◌>>◌}
use pgcopydb_operator.Platform.Exec.Answers.{Answers, answer_rules}
use pgcopydb_operator.Platform.Exec.Keeps.{Keeps, IsPreorder, keeps_rules}
use pgcopydb_operator.Controller.Status.{patch, observe_generation, rebase, patch_status_locked}
use pgcopydb_operator.Controller.Hold.{attempt_phase}
use pgcopydb_operator.Controller.Frame.{SameCore, Still, still_rules}
use pgcopydb_operator.Controller.Budget.{
  on_failure_path, verdict_overdue, budget_spent, decided, seen_in, exempt_increment,
  copy_done_for_gate, fail_budget, record_verdict, decide,
}
use pgcopydb_operator.Controller.Budget.Calm.{decide-Still}
use pgcopydb_operator.Controller.Probe.{gate_inputs_for}
use pgcopydb_operator.Controller.Gate.{retry_gate}
use pgcopydb_operator.Controller.Gate.Opening.{proceeds, IsOpen, opened}

-- The checks that a probe has to run stay the same.
module _ (k : ConditionApi) where
  record SameInputs (s t : Pass) : Type 0 where
    inputs : gate_inputs_for k t.m ≡ gate_inputs_for k s.m

  SameInputs-IsPreorder : IsPreorder SameInputs
  SameInputs-IsPreorder = record {
    same = λ s. record { inputs = refl };
    chain = λ s t u p q. record { inputs = q.inputs ∙ p.inputs };
  }

  say-SameInputs : (c : Call) → Keeps SameInputs (say c)
  unfolding say
  say-SameInputs c = record { at = λ s. record { inputs = refl } }

  decided-seen : (e : Exemption) (r : Option RetryGateStatus) → seen_in (decided e r) ≡ seen_in r
  decided-seen e none = refl
  decided-seen e (some r) = refl

  verdict-SameInputs :
      (e : Exemption)
      → Keeps SameInputs (
          status (λ st. record st {
            retry_gate = decided e st.retry_gate;
            exempt_attempts = exempt_increment e st.exempt_attempts;
          }))
  unfolding status gate_inputs_for copy_done_for_gate attempt_phase
  verdict-SameInputs e = record {
    at = λ s. record { inputs = rw (decided-seen e s.m.status.retry_gate) };
  }

  module _ (api : Api) where
    observe-SameInputs : Keeps SameInputs (observe_generation api)
    unfolding observe_generation modify gate_inputs_for copy_done_for_gate attempt_phase
    observe-SameInputs = record { at = λ s. record { inputs = refl } }

    rebase-SameInputs : Keeps SameInputs (rebase api)
    unfolding rebase
    rebase-SameInputs = record { at = λ s. record { inputs = refl } }

    patch-SameInputs : Keeps SameInputs (patch_status_locked api)
    unfolding patch_status_locked patch
    patch-SameInputs =
        search
          (
            keeps_rules, SameInputs-IsPreorder, say-SameInputs, observe-SameInputs,
            rebase-SameInputs,
          )
          depth 14

    record_verdict-SameInputs : (e : Exemption) → Keeps SameInputs (record_verdict k api e)
    unfolding record_verdict
    record_verdict-SameInputs e =
        search (keeps_rules, SameInputs-IsPreorder, verdict-SameInputs, patch-SameInputs) depth 12

    -- The verdict with its answer.
    verdict_of : Bool → Exec Bool
    verdict_of spent = do when spent (fail_budget k); record_verdict k api counted; pure spent

    verdict_of-Answers : (b : Bool) → Answers b (verdict_of b)
    unfolding verdict_of
    verdict_of-Answers b = search answer_rules depth 8

    verdict_of-SameInputs : Keeps SameInputs (verdict_of false)
    unfolding verdict_of
    verdict_of-SameInputs =
        search (keeps_rules, SameInputs-IsPreorder, record_verdict-SameInputs) depth 12

    unspent_inputs :
        (b : Bool) (s : Pass)
        → (verdict_of b s).0 ≡ ok false
        → gate_inputs_for k (verdict_of b s).1.m ≡ gate_inputs_for k s.m
    unspent_inputs true s h = ground (arith, (verdict_of-Answers true).answer s false h)
    unspent_inputs false s h = (verdict_of-SameInputs.at s).inputs

module _ (k : ConditionApi) (L : IsLawful k) (api : Api) where
  settled : Bool → Exec Bool
  settled overdue = if overdue then decide k api counted else pure false

  settled-Still : (b : Bool) → Keeps (Still k) (settled b)
  unfolding settled
  settled-Still b = search (still_rules, decide-Still)

  settled-inputs :
      (b : Bool) (s : Pass)
      → (settled b s).0 ≡ ok false
      → gate_inputs_for k (settled b s).1.m ≡ gate_inputs_for k s.m
  unfolding settled decide verdict_of pure gets ◌>>=◌
  settled-inputs true s h = unspent_inputs k api (budget_spent s.m) s h
  settled-inputs false s h = refl

  -- The retry gate lets the worker of attempt n start only if, in the state that it leaves behind,
  -- which has the core of the state before and asks for the same checks, the API listed no live pod
  -- of the previous attempt's worker and no live rehearsal pod, and showed a probe Job of attempt n
  -- that is not being deleted, succeeded, is fresh, ran the checks that the Migration asks for, and
  -- has a readable log that passes them.
  pub retry_gate-opens :
      (n : ℕ) (s : Pass)
      → proceeds (retry_gate k api n s).0 ≡ true
      → SameCore k s.m (retry_gate k api n s).1.m
        × (gate_inputs_for k (retry_gate k api n s).1.m ≡ gate_inputs_for k s.m)
        × IsOpen k api n (retry_gate k api n s).1
  unfolding retry_gate settled ◌>>=◌
  retry_gate-opens n s h =
      let b = on_failure_path s.m && verdict_overdue s.m.status.retry_gate (api.now s.calls) in
      let (e, q, o) = opened k api n (settled b s).0 (settled b s).1 h in
      subst
        (λ t.
          SameCore k s.m t.m × (gate_inputs_for k t.m ≡ gate_inputs_for k s.m) × IsOpen k api n t)
        (sym q) (((settled-Still b).at s).core, settled-inputs b s e, o)
