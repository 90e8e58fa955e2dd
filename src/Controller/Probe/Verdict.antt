-- ===== src/Controller/Probe/Verdict.antt =====
-- The two readings of a probe's log agree: what keeps the gate shut, and what opens it.
use pgcopydb_operator.Prelude.{
  ◌≡◌, refl, ◌↔◌, Bool, true, false, ◌&&◌, ◌||◌, not, Option, none, some, List, [], ◌∷◌,
  if◌then◌else◌, arith,
}
use pgcopydb_operator.Migration.Conditions.{Reason}
use pgcopydb_operator.Platform.Types.{GateCensus, GateInputs, GateResult, CommitResult, commit_ok}
use pgcopydb_operator.Controller.Probe.{
  census_clear, is_local, is_commit_ok, passed, census_fault, local_fault, commit_fault, faults,
  first_fault, hold,
}

none-passed : (l : List Reason) (b : Bool) → first_fault l b ≡ none → b ≡ true
unfolding first_fault
none-passed [] true h = refl
none-passed [] false h = ground arith
none-passed (r ∷ l) b h = ground arith

clear-fault : (c : Option GateCensus) → census_clear c ≡ true → census_fault c ≡ []
unfolding census_fault
clear-fault none h = ground arith
clear-fault (some c) h = ground arith

local-fault :
    (s : Option Bool) (e : Bool)
    → not e || is_local s ≡ true
    → (if e then local_fault s else []) ≡ []
unfolding local_fault
local-fault s false h = refl
local-fault none true h = ground arith
local-fault (some true) true h = refl
local-fault (some false) true h = ground arith

commit-fault :
    (c : CommitResult) (t : Bool)
    → not t || is_commit_ok c ≡ true
    → (if t then commit_fault c else []) ≡ []
unfolding commit_fault
commit-fault c false h = refl
commit-fault commit_ok true h = refl
commit-fault _ true h = ground arith

and-left : (a b : Bool) → a && b ≡ true → a ≡ true
and-left true b h = refl
and-left false b h = h

and-right : (a b : Bool) → a && b ≡ true → b ≡ true
and-right true b h = h
and-right false b h = ground arith

no-faults : (g : GateResult) (i : GateInputs) → passed g i ≡ true → faults g i ≡ []
unfolding passed faults
no-faults g i h =
    let c = clear-fault g.census (and-right _ _ (and-left _ _ (and-left _ _ h))) in
    let l = local-fault g.sync_commit i.expect_local (and-right _ _ (and-left _ _ h)) in
    let m = commit-fault g.commit i.commit_test (and-right _ _ h) in rw (c, l, m)

-- A probe's log keeps the gate shut for no reason exactly when it passes: the first failed check
-- that `hold` finds is none if and only if `passed` holds of the same log and inputs.
pub hold-passed : (g : GateResult) (i : GateInputs) → hold g i ≡ none ↔ passed g i ≡ true
unfolding hold first_fault
hold-passed g i = (none-passed (faults g i) (passed g i), λ h. rw (no-faults g i h, h))
