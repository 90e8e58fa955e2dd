-- ===== src/Controller/Gate/Opening.antt =====
-- When the retry gate lets a worker start.
use pgcopydb_operator.Prelude.{
  ℕ, ◌≡◌, refl, ◌∙◌, sym, subst, Bool, true, false, ◌&&◌, not, Option, none, some, is_some, List,
  [], if◌then◌else◌, first, arith, ◌||◌,
}
use pgcopydb_operator.Prelude.Word.{sub32}
use pgcopydb_operator.Migration.Name.{worker, gate}
use pgcopydb_operator.Migration.Conditions.{ConditionApi, probe_failed, worker_pod_remains}
use pgcopydb_operator.Platform.Types.{
  Err, not_found, Result, ok, err, Job, Pod, by_job, by_migration, Selector, GateResult, Next,
  finished, background, Trace, Api,
}
use pgcopydb_operator.Platform.Exec.{Pass, Exec, pure, raise, ask, gets, ◌>>=◌, ◌>>◌, continue}
use pgcopydb_operator.Controller.Jobs.{
  job_finished, is_done, is_success, delete_job_ok, get_job_uncached,
}
use pgcopydb_operator.Controller.Hold.{set_hold, probing}
use pgcopydb_operator.Controller.Probe.{gate_inputs_for, passed}
use pgcopydb_operator.Controller.Probe.Log.{parse_gate_log}
use pgcopydb_operator.Controller.Rehearsal.{find_pod, live_pod, live_rehearsal_pod, rehearsal_pod}
use pgcopydb_operator.Controller.Gate.{
  Gated, held_with, keep_probing, create_gate_job, fresh, judge_failed, judge_probe, probe_job,
  blocking_pod, gate_pods, held,
}

-- The answer that lets the worker start.
abbrev pub proceeds : Result Gated → Bool
proceeds (ok (next, go)) = go
proceeds (err e) = false

record Shut (m : Exec Gated) : Type 0 where
  at : (s : Pass) → proceeds (m s).0 ≡ false

Shut-pure : (n : Next) → Shut (pure (n, false))
unfolding pure
Shut-pure n = record { at = λ s. refl }

Shut-raise : (e : Err) → Shut (raise e)
unfolding raise
Shut-raise e = record { at = λ s. refl }

Shut-if : (b : Bool) (m n : Exec Gated) → Shut m → Shut n → Shut (if b then m else n)
Shut-if true m n h i = h
Shut-if false m n h i = i

module _ {A : Type 0} where
  Shut-continue :
      (r : Result A) (f : A → Exec Gated) (t : Pass)
      → ((a : A) → Shut (f a))
      → proceeds (continue r f t).0 ≡ false
  Shut-continue (ok a) f t h = (h a).at t
  Shut-continue (err e) f t h = refl

  Shut-bind : (m : Exec A) (f : A → Exec Gated) → ((a : A) → Shut (f a)) → Shut (m >>= f)
  unfolding ◌>>=◌
  Shut-bind m f h = record { at = λ s. let (r, t) = m s in Shut-continue r f t h }

ruleset shut_rules = (Shut-pure, Shut-raise, Shut-if, Shut-bind)

-- A method that changes nothing where it opens the gate, and one that never changes anything.
record Fixed (m : Exec Gated) : Type 0 where
  at : (s : Pass) → proceeds (m s).0 ≡ true → (m s).1 ≡ s

record Reads {A : Type 0} (m : Exec A) : Type 0 where
  at : (s : Pass) → (m s).1 ≡ s

Reads-ask : {A : Type 0} (f : Trace → A) → Reads (ask f)
unfolding ask
Reads-ask f = record { at = λ s. refl }

Reads-gets : {A : Type 0} (f : Pass → A) → Reads (gets f)
unfolding gets
Reads-gets f = record { at = λ s. refl }

Fixed-Shut : (m : Exec Gated) → Shut m → Fixed m
Fixed-Shut m h = record { at = λ s g. ground (arith, g, h.at s) }

Fixed-pure : (a : Gated) → Fixed (pure a)
unfolding pure
Fixed-pure a = record { at = λ s h. refl }

Fixed-if : (b : Bool) (m n : Exec Gated) → Fixed m → Fixed n → Fixed (if b then m else n)
Fixed-if true m n h i = h
Fixed-if false m n h i = i

module _ {A : Type 0} where
  Fixed-continue :
      (r : Result A) (f : A → Exec Gated) (t : Pass)
      → ((a : A) → Fixed (f a))
      → proceeds (continue r f t).0 ≡ true
      → (continue r f t).1 ≡ t
  Fixed-continue (ok a) f t h g = (h a).at t g
  Fixed-continue (err e) f t h g = refl

  Fixed-bind :
      (m : Exec A) (f : A → Exec Gated) → Reads m → ((a : A) → Fixed (f a)) → Fixed (m >>= f)
  unfolding ◌>>=◌
  Fixed-bind m f r h = record { at = λ s g. Fixed-continue (m s).0 f (m s).1 h g ∙ r.at s }

ruleset fixed_rules =
    (Fixed-bind, Reads-ask, Reads-gets, Fixed-pure, Fixed-if, Fixed-Shut, shut_rules)

module _ (k : ConditionApi) (api : Api) where
  held_with-Shut : (n : Next) → Shut (held_with k api n)
  unfolding held_with
  held_with-Shut n = search shut_rules depth 10

  keep_probing-Shut : Shut (keep_probing k api)
  unfolding keep_probing
  keep_probing-Shut = search (shut_rules, held_with-Shut) depth 10

  judge_failed-Shut : (j : Job) (b c : Bool) (g : GateResult) → Shut (judge_failed k api j b c g)
  unfolding judge_failed
  judge_failed-Shut j b c g = search (shut_rules, keep_probing-Shut, held_with-Shut) depth 14

  -- What a probe Job must have been, in the pass `s` that read it, for the gate to open.
  pub record IsPass (s : Pass) (job : Job) : Type 0 where
    pub succeeded : is_success (job_finished job.conditions) ≡ true
    pub timely : fresh k api job (gate_inputs_for k s.m) (api.now s.calls) ≡ true
    pub readable : api.has_logs ≡ true
    pub read : api.log_error s.calls job.name ≡ none
    pub verdict :
        passed (parse_gate_log (api.gate_log s.calls job.name)) (gate_inputs_for k s.m) ≡ true

  if-opens :
      (b : Bool) (m n : Exec Gated) (s : Pass)
      → Shut n
      → proceeds ((if b then m else n) s).0 ≡ true
      → b ≡ true
  if-opens true m n s i h = refl
  if-opens false m n s i h = sym (i.at s) ∙ h

  if-passes :
      (b : Bool) (m n : Exec Gated) (s : Pass)
      → Shut m
      → proceeds ((if b then m else n) s).0 ≡ true
      → (b ≡ false) × (proceeds (n s).0 ≡ true)
  if-passes true m n s i h = (sym h ∙ i.at s, ground (arith, i.at s))
  if-passes false m n s i h = (refl, h)

  if-takes :
      (b : Bool) (m n : Exec Gated) (s : Pass)
      → Shut n
      → proceeds ((if b then m else n) s).0 ≡ true
      → proceeds (m s).0 ≡ true
  if-takes true m n s i h = h
  if-takes false m n s i h = ground (arith, i.at s)

  delete_then-Shut :
      (job : Job) → Shut (delete_job_ok api job.name background >> keep_probing k api)
  delete_then-Shut job = search (shut_rules, keep_probing-Shut) depth 10

  IsPass-intro :
      (s : Pass) (job : Job) (succeeded timely logs : Bool) (failed : Option Err)
      → is_success (job_finished job.conditions) ≡ succeeded
      → fresh k api job (gate_inputs_for k s.m) (api.now s.calls) ≡ timely
      → api.has_logs ≡ logs
      → api.log_error s.calls job.name ≡ failed
      → succeeded && not timely ≡ false
      → succeeded
          && not (not logs || is_some failed)
          && passed
              (parse_gate_log (if logs then api.gate_log s.calls job.name else []))
              (gate_inputs_for k s.m)
        ≡ true
      → IsPass s job
  IsPass-intro s job true true true none a b c d p q = record {
    succeeded = a;
    timely = b;
    readable = c;
    read = d;
    verdict = q;
  }
  IsPass-intro s job false _ _ _ a b c d p q = ground arith
  IsPass-intro s job true false _ _ a b c d p q = ground arith
  IsPass-intro s job true true false _ a b c d p q = ground arith
  IsPass-intro s job true true true (some e) a b c d p q = ground arith

  judge_probe-opens :
      (job : Job) (s : Pass) → proceeds (judge_probe k api job s).0 ≡ true → IsPass s job
  unfolding judge_probe ◌>>=◌
  judge_probe-opens job s h =
      let (c, i) = if-passes _ _ _ s (delete_then-Shut job) h in
      IsPass-intro s job _ _ _ _ refl refl refl refl c
        (if-opens _ _ _ s (judge_failed-Shut job _ _ _) i)

  -- Whatever opens the gate changes nothing on the way.
  judge_probe-Fixed : (job : Job) → Fixed (judge_probe k api job)
  unfolding judge_probe
  judge_probe-Fixed job = search (fixed_rules, delete_then-Shut, judge_failed-Shut) depth 16

  -- The probe Job that the gate read.
  pub record IsProbe (n : ℕ) (s : Pass) (r : Result Job) (job : Job) : Type 0 where
    pub got : r ≡ ok job
    pub alive : job.deleting ≡ false
    pub pass : IsPass s job

  create_then-Shut : (n : ℕ) → Shut (create_gate_job k api n >> keep_probing k api)
  create_then-Shut n = search (shut_rules, keep_probing-Shut) depth 10

  watch-Shut :
      (job : Job) (f : Bool → Exec (Unit {0}))
      → Shut
          (ask (λ t. api.pod_wait_detail t job.name) >>= λ stuck. f stuck >> held_with k api held)
  watch-Shut job f = search (shut_rules, held_with-Shut) depth 10

  probe_job-opens :
      (n : ℕ) (r : Result Job) (s : Pass)
      → proceeds (probe_job k api n r s).0 ≡ true
      → (job : Job) × IsProbe n s r job
  unfolding probe_job ◌>>=◌
  probe_job-opens n (err not_found) s h = ground (arith, (create_then-Shut n).at s)
  probe_job-opens n (err _) s h = ground arith
  probe_job-opens n (ok job) s h =
      let (c, i) = if-passes job.deleting _ _ s keep_probing-Shut h in
      let judged =
        if-takes (is_done (job_finished job.conditions)) (judge_probe k api job) _ s (
          watch-Shut job (λ stuck. if stuck then set_hold k api probe_failed else probing k api)) in
      (job, record { got = refl; alive = c; pass = judge_probe-opens job s (judged i) })

  probe_job-Fixed : (n : ℕ) (r : Result Job) → Fixed (probe_job k api n r)
  unfolding probe_job
  probe_job-Fixed n (err not_found) = Fixed-Shut _ (create_then-Shut n)
  probe_job-Fixed n (err e) = search fixed_rules depth 8
  probe_job-Fixed n (ok job) = search (fixed_rules, keep_probing-Shut, judge_probe-Fixed) depth 16

  ok-inj : {A : Type 0} {a b : A} → ok a ≡ ok b → a ≡ b
  ok-inj h = ground (arith, h)

  -- No pod of those that the API listed counts.
  pub record IsClear (s : Pass) (selector : Selector) (counts : Pod → Bool) : Type 0 where
    pub pods : List Pod
    pub listed : api.list_pods s.calls selector ≡ ok pods
    pub none_counts : first counts pods ≡ none

  found-lem :
      (counts : Pod → Bool) (r : Result (List Pod)) (s : Pass)
      → (continue r (λ pods. pure (first counts pods)) s).1 ≡ s
  unfolding pure
  found-lem counts (ok pods) s = refl
  found-lem counts (err e) s = refl

  found-none :
      (counts : Pod → Bool) (r : Result (List Pod)) (s : Pass)
      → (continue r (λ pods. pure (first counts pods)) s).0 ≡ ok none
      → (pods : List Pod) × (r ≡ ok pods) × (first counts pods ≡ none)
  unfolding pure
  found-none counts (ok pods) s h = (pods, refl, ok-inj h)
  found-none counts (err e) s h = ground arith

  find_pod-state : (sel : Selector) (c : Pod → Bool) (s : Pass) → (find_pod api sel c s).1 ≡ s
  unfolding find_pod ◌>>=◌
  find_pod-state sel c s = found-lem c (api.list_pods s.calls sel) s

  find_pod-IsClear :
      (sel : Selector) (c : Pod → Bool) (s : Pass)
      → (find_pod api sel c s).0 ≡ ok none
      → IsClear s sel c
  unfolding find_pod ◌>>=◌
  find_pod-IsClear sel c s h =
      let (pods, listed, none_counts) = found-none c (api.list_pods s.calls sel) s h in
      record { pods = pods; listed = listed; none_counts = none_counts }

  -- The two looks for a pod, after one another.
  unblocked :
      (r : Result (Option Pod)) (t : Pass)
      → (continue r (λ p. if is_some p then pure p else rehearsal_pod api) t).0 ≡ ok none
      → (r ≡ ok none) × ((rehearsal_pod api t).0 ≡ ok none)
  unfolding pure
  unblocked (ok none) t h = (refl, h)
  unblocked (ok (some p)) t h = ground arith
  unblocked (err e) t h = ground arith

  blocked-state :
      (r : Result (Option Pod)) (t : Pass)
      → (continue r (λ p. if is_some p then pure p else rehearsal_pod api) t).1 ≡ t
  unfolding pure rehearsal_pod
  blocked-state (ok none) t = find_pod-state by_migration live_rehearsal_pod t
  blocked-state (ok (some p)) t = refl
  blocked-state (err e) t = refl

  blocking_pod-state : (n : ℕ) (s : Pass) → (blocking_pod k api n s).1 ≡ s
  unfolding blocking_pod ◌>>=◌
  blocking_pod-state n s =
      blocked-state _ _ ∙ find_pod-state (by_job (worker (sub32 n 1))) live_pod s

  stopped-Shut : Shut (set_hold k api worker_pod_remains >> held_with k api held)
  stopped-Shut = search (shut_rules, held_with-Shut) depth 10

  unstopped :
      (n : ℕ) (r : Result (Option Pod)) (t : Pass)
      → proceeds
          (continue r
            (λ pod.
              if is_some pod
              then (set_hold k api worker_pod_remains >> held_with k api held)
              else (get_job_uncached api (gate n) >>= λ got. probe_job k api n got))
            t).0
        ≡ true
      → (r ≡ ok none)
        × (proceeds (probe_job k api n (api.get_job t.calls true (gate n)) t).0 ≡ true)
  unfolding ◌>>=◌
  unstopped n (ok none) t h = (refl, h)
  unstopped n (ok (some p)) t h = ground (arith, stopped-Shut.at t)
  unstopped n (err e) t h = ground arith

  -- What the API showed when the gate opened for attempt n.
  pub record IsOpen (n : ℕ) (s : Pass) : Type 0 where
    pub previous : IsClear s (by_job (worker (sub32 n 1))) live_pod
    pub rehearsals : IsClear s by_migration live_rehearsal_pod
    pub probe : (job : Job) × IsProbe n s (api.get_job s.calls true (gate n)) job

  gate_pods-opens : (n : ℕ) (s : Pass) → proceeds (gate_pods k api n s).0 ≡ true → IsOpen n s
  unfolding gate_pods blocking_pod rehearsal_pod ◌>>=◌
  gate_pods-opens n s h =
      let (b, p) = unstopped n (blocking_pod k api n s).0 (blocking_pod k api n s).1 h in
      let (one, two) = unblocked _ _ b in
      record {
        previous = find_pod-IsClear _ _ s one;
        rehearsals =
            find_pod-IsClear by_migration live_rehearsal_pod s
              (subst (λ t. (rehearsal_pod api t).0 ≡ ok none) (find_pod-state _ live_pod s) two);
        probe = probe_job-opens n _ s (
            subst (λ t. proceeds (probe_job k api n (api.get_job t.calls true (gate n)) t).0 ≡ true)
              (blocking_pod-state n s) p);
      }

  blocking_pod-Reads : (n : ℕ) → Reads (blocking_pod k api n)
  blocking_pod-Reads n = record { at = blocking_pod-state n }

  gate_pods-Fixed : (n : ℕ) → Fixed (gate_pods k api n)
  unfolding gate_pods
  gate_pods-Fixed n =
      search (fixed_rules, blocking_pod-Reads, stopped-Shut, probe_job-Fixed) depth 16

  -- The gate behind the verdict: it opens only where the verdict did not fail the Migration, and in
  -- the state that it found.
  pub opened :
      (n : ℕ) (r : Result Bool) (t : Pass)
      → proceeds (continue r (λ b. if b then pure (finished, false) else gate_pods k api n) t).0
        ≡ true
      → (r ≡ ok false)
        × ((continue r (λ b. if b then pure (finished, false) else gate_pods k api n) t).1 ≡ t)
        × IsOpen n t
  unfolding pure
  opened n (ok true) t h = ground arith
  opened n (ok false) t h = (refl, (gate_pods-Fixed n).at t h, gate_pods-opens n t h)
  opened n (err e) t h = ground arith
