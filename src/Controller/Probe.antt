-- ===== src/Controller/Probe.antt =====
-- What a retry gate probe checks and how its result is read (retry_gate_job.go).
pub mod Verdict
pub mod Log
pub mod Cleared
use pgcopydb_operator.Prelude.{
  ℕ, Bool, true, false, ◌&&◌, ◌||◌, Option, none, some, List, [], ◌∷◌, ◌++◌, if◌then◌else◌, not,
  ◌==◌,
}
use pgcopydb_operator.Prelude.Word.{lt64}
use pgcopydb_operator.Migration.{Migration}
use pgcopydb_operator.Migration.Conditions.{
  Reason, probe_failed, sessions_remain, sync_commit_not_local, commit_blocked, ConditionApi,
}
use pgcopydb_operator.Platform.Types.{
  GateInputs, GateCensus, GateResult, CommitResult, commit_absent, commit_ok, commit_skipped,
  commit_failed, commit_other,
}
use pgcopydb_operator.Controller.Budget.{copy_done_for_gate}

abbrev bool_eq : Bool → Bool → Bool
bool_eq true b = b
bool_eq false b = not b

-- job.Annotations[...] == in.String(): the text is injective in the two flags
unfoldable pub same_inputs : Option GateInputs → GateInputs → Bool
same_inputs none i = false
same_inputs (some j) i =
    bool_eq j.commit_test i.commit_test && bool_eq j.expect_local i.expect_local

module _ (k : ConditionApi) where
  -- gateInputsFor
  unfoldable pub gate_inputs_for : Migration → GateInputs
  gate_inputs_for m =
      let local = m.spec.synchronous_commit_local in
      record { commit_test = not local || copy_done_for_gate k m; expect_local = local }

abbrev pub census_clear : Option GateCensus → Bool
census_clear none = false
census_clear (some c) = c.total == 0

abbrev pub is_local : Option Bool → Bool
is_local none = false
is_local (some b) = b

abbrev pub is_commit_ok : CommitResult → Bool
is_commit_ok commit_ok = true
is_commit_ok _ = false

-- gateResult.passed
unfoldable pub passed : GateResult → GateInputs → Bool
passed g i =
    g.pass
    && census_clear g.census
    && (not i.expect_local || is_local g.sync_commit)
    && (not i.commit_test || is_commit_ok g.commit)

-- The three switches of `hold`, in script order: the reason of each check that failed.
census_fault : Option GateCensus → List Reason
census_fault none = probe_failed ∷ []
census_fault (some c) = if lt64 0 c.total then sessions_remain ∷ [] else []

local_fault : Option Bool → List Reason
local_fault none = probe_failed ∷ []
local_fault (some b) = if b then [] else sync_commit_not_local ∷ []

commit_fault : CommitResult → List Reason
commit_fault commit_ok = []
commit_fault CommitResult.commit_blocked = Reason.commit_blocked ∷ []
commit_fault commit_skipped = Reason.commit_blocked ∷ []
commit_fault commit_failed = probe_failed ∷ []
commit_fault commit_absent = probe_failed ∷ []
commit_fault commit_other = probe_failed ∷ []

-- Every check that failed, in script order.
faults : GateResult → GateInputs → List Reason
unfolding census_fault local_fault commit_fault
faults g i =
    census_fault g.census
    ++ ((if i.expect_local then local_fault g.sync_commit else [])
        ++ (if i.commit_test then commit_fault g.commit else []))

-- `reason == "" && !g.passed(in)`: no check failed, and still the log shows no pass.
first_fault : List Reason → Bool → Option Reason
first_fault (r ∷ rs) ok = some r
first_fault [] ok = if ok then none else some probe_failed

-- gateResult.hold: the first check that did not pass; none is the empty reason.
unfoldable pub hold : GateResult → GateInputs → Option Reason
unfolding faults passed first_fault
hold g i = first_fault (faults g i) (passed g i)
