-- ===== src/Controller/Gate/Cleared.antt =====
-- From the retry gate to the lines of the log that it opened on.
use pgcopydb_operator.Prelude.{ℕ, ◌≡◌, subst, true, none}
use pgcopydb_operator.Migration.Name.{gate}
use pgcopydb_operator.Migration.Conditions.{ConditionApi, IsLawful}
use pgcopydb_operator.Platform.Types.{ok, Job, GateInputs, Api}
use pgcopydb_operator.Platform.Exec.{Pass}
use pgcopydb_operator.Text.Lines.{split_lines}
use pgcopydb_operator.Controller.Probe.{gate_inputs_for}
use pgcopydb_operator.Controller.Probe.Cleared.{IsCleared, parse_gate_log-IsCleared}
use pgcopydb_operator.Controller.Gate.{retry_gate}
use pgcopydb_operator.Controller.Gate.Opening.{proceeds}
use pgcopydb_operator.Controller.Gate.Safety.{retry_gate-opens}

module _ (k : ConditionApi) (L : IsLawful k) (api : Api) where
  -- A probe of attempt n that was read in the state `t`, and what its log says line by line of the
  -- checks `i`.
  pub record ClearedProbe (n : ℕ) (i : GateInputs) (t : Pass) : Type 0 where
    pub job : Job
    pub got : api.get_job t.calls true (gate n) ≡ ok job
    pub read : api.log_error t.calls job.name ≡ none
    pub says : IsCleared i (split_lines (api.gate_log t.calls job.name))

  -- The retry gate lets attempt n start only after it read, in the state that it leaves behind,
  -- without an error the log of the probe Job of that attempt, and the log has a line "gate: pass", a
  -- census line that counts no session, a line that shows synchronous_commit=local where the spec of
  -- the Migration asks for that, and a commit line that says ok where the Migration, as the gate
  -- found it, has the commit tested.
  pub retry_gate-cleared :
      (n : ℕ) (s : Pass)
      → proceeds (retry_gate k api n s).0 ≡ true
      → ClearedProbe n (gate_inputs_for k s.m) (retry_gate k api n s).1
  retry_gate-cleared n s h =
      let (same, inputs, o) = retry_gate-opens k L api n s h in
      let t = (retry_gate k api n s).1 in
      let (job, p) = o.probe in
      record {
        job = job;
        got = p.got;
        read = p.pass.read;
        says =
            subst (λ i. IsCleared i (split_lines (api.gate_log t.calls job.name))) inputs
              (parse_gate_log-IsCleared (api.gate_log t.calls job.name) (gate_inputs_for k t.m)
                p.pass.verdict);
      }
