-- ===== src/Controller/Probe/Cleared.antt =====
-- A log passes only by its own result lines, so that one cut short never does.
use pgcopydb_operator.Prelude.{
  ◌≡◌, refl, sym, ◌∙◌, ap, arith, Bool, true, false, ◌⊎◌, inl, inr, Option, none, some, List, [],
  ◌∷◌,
}
use pgcopydb_operator.Platform.Types.{GateCensus, GateInputs, GateResult}
use pgcopydb_operator.Text.{Text, codes, same, cut_prefix}
use pgcopydb_operator.Text.Laws.{same_sound}
use pgcopydb_operator.Text.Lines.{split_lines}
use pgcopydb_operator.Controller.Probe.{passed, census_clear, is_local, is_commit_ok}
use pgcopydb_operator.Controller.Probe.Log.{
  gate_text, parse_census, commit_read, first_census, gate_line, gate_read, read_gate_lines,
  no_result, parse_gate_log,
}

-- Some line of the log has a gate result with the property.
abbrev pub Says : (Text → Type 0) → List Text → Type 0
Says P [] = ⊥
Says P (l ∷ ls) = ((rest : Text) × (gate_text l ≡ some rest) × P rest) ⊎ Says P ls

-- A property of the result that only a line with `P` can bring about.
module _ (P : Text → Type 0) (Q : GateResult → Type 0)
    (step : (g : GateResult) (rest : Text) → Q (gate_read g (some rest)) → Q g ⊎ P rest) where
  read_step :
      (g : GateResult) (l : Text) (o : Option Text)
      → gate_text l ≡ o
      → Q (gate_read g o)
      → Q g ⊎ ((rest : Text) × (gate_text l ≡ some rest) × P rest)
  read_step g l none e q = inl q
  read_step g l (some rest) e q = elim (step g rest q) [ inl h ↦ inl h | inr p ↦ inr (rest, e, p) ]

  said : (ls : List Text) (g : GateResult) → Q (read_gate_lines g ls) → Q g ⊎ Says P ls
  unfolding read_gate_lines
  said [] g q = inl q
  said (l ∷ ls) g q = elim (said ls (gate_read g (gate_text l)) q) [
    | inl h ↦ elim (read_step g l (gate_text l) refl h) [
      | inl old ↦ inl old
      | inr new ↦ inr (inl new)
    ]
    | inr later ↦ inr (inr later)
  ]

kept_pass : (g : GateResult) (o n : Option GateCensus) → (first_census g o n).pass ≡ g.pass
kept_pass g none n = refl
kept_pass g (some c) n = refl

kept_sync :
    (g : GateResult) (o n : Option GateCensus) → (first_census g o n).sync_commit ≡ g.sync_commit
kept_sync g none n = refl
kept_sync g (some c) n = refl

kept_commit : (g : GateResult) (o n : Option GateCensus) → (first_census g o n).commit ≡ g.commit
kept_commit g none n = refl
kept_commit g (some c) n = refl

pass_line :
    (g : GateResult) (rest : Text) (cf : Option Text) (c : Bool) (se sf sy co : Option Text)
    (p : Bool)
    → same rest (codes "pass") ≡ p
    → (gate_line g rest cf c se sf sy co p).pass ≡ true
    → (g.pass ≡ true) ⊎ (rest ≡ codes "pass")
pass_line g rest (some v) c se sf sy co p e h = inl h
pass_line g rest none true se sf sy co p e h =
    inl (sym (kept_pass g g.census (parse_census rest)) ∙ h)
pass_line g rest none false (some v) sf sy co p e h = inl h
pass_line g rest none false none (some v) sy co p e h = inl h
pass_line g rest none false none none (some v) co p e h = inl h
pass_line g rest none false none none none (some v) p e h = inl h
pass_line g rest none false none none none none true e h = inr (same_sound rest (codes "pass") e)
pass_line g rest none false none none none none false e h = inl h

-- A census line of a target with no session left.
abbrev pub NoSession : Text → Type 0
NoSession rest = census_clear (parse_census rest) ≡ true

clear_first :
    (g : GateResult) (o : Option GateCensus) (rest : Text)
    → g.census ≡ o
    → census_clear (first_census g o (parse_census rest)).census ≡ true
    → (census_clear g.census ≡ true) ⊎ NoSession rest
clear_first g none rest e h = inr h
clear_first g (some c) rest e h = inl h

clear_line :
    (g : GateResult) (rest : Text) (cf : Option Text) (c : Bool) (se sf sy co : Option Text)
    (p : Bool)
    → Unit {0}
    → census_clear (gate_line g rest cf c se sf sy co p).census ≡ true
    → (census_clear g.census ≡ true) ⊎ NoSession rest
clear_line g rest (some v) c se sf sy co p e h = inl h
clear_line g rest none true se sf sy co p e h = clear_first g g.census rest refl h
clear_line g rest none false (some v) sf sy co p e h = inl h
clear_line g rest none false none (some v) sy co p e h = inl h
clear_line g rest none false none none (some v) co p e h = inl h
clear_line g rest none false none none none (some v) p e h = inl h
clear_line g rest none false none none none none true e h = inl h
clear_line g rest none false none none none none false e h = inl h

-- The line that shows synchronous_commit=local.
abbrev pub ShowsLocal : Text → Type 0
ShowsLocal rest = cut_prefix (codes "synchronous_commit=") rest ≡ some (codes "local")

local_line :
    (g : GateResult) (rest : Text) (cf : Option Text) (c : Bool) (se sf sy co : Option Text)
    (p : Bool)
    → cut_prefix (codes "synchronous_commit=") rest ≡ sy
    → is_local (gate_line g rest cf c se sf sy co p).sync_commit ≡ true
    → (is_local g.sync_commit ≡ true) ⊎ ShowsLocal rest
local_line g rest (some v) c se sf sy co p e h = inl h
local_line g rest none true se sf sy co p e h =
    inl (ap is_local (sym (kept_sync g g.census (parse_census rest))) ∙ h)
local_line g rest none false (some v) sf sy co p e h = inl h
local_line g rest none false none (some v) sy co p e h = inl h
local_line g rest none false none none (some v) co p e h =
    inr (e ∙ ap some (same_sound v (codes "local") h))
local_line g rest none false none none none (some v) p e h = inl h
local_line g rest none false none none none none true e h = inl h
local_line g rest none false none none none none false e h = inl h

-- A commit line whose first word is ok.
abbrev pub ShowsCommit : Text → Type 0
ShowsCommit rest =
    (v : Text) × (cut_prefix (codes "commit ") rest ≡ some v)
    × (is_commit_ok (commit_read v) ≡ true)

commit_line :
    (g : GateResult) (rest : Text) (cf : Option Text) (c : Bool) (se sf sy co : Option Text)
    (p : Bool)
    → cut_prefix (codes "commit ") rest ≡ co
    → is_commit_ok (gate_line g rest cf c se sf sy co p).commit ≡ true
    → (is_commit_ok g.commit ≡ true) ⊎ ShowsCommit rest
commit_line g rest (some v) c se sf sy co p e h = inl h
commit_line g rest none true se sf sy co p e h =
    inl (ap is_commit_ok (sym (kept_commit g g.census (parse_census rest))) ∙ h)
commit_line g rest none false (some v) sf sy co p e h = inl h
commit_line g rest none false none (some v) sy co p e h = inl h
commit_line g rest none false none none (some v) co p e h = inl h
commit_line g rest none false none none none (some v) p e h = inr (v, e, h)
commit_line g rest none false none none none none true e h = inl h
commit_line g rest none false none none none none false e h = inl h

-- What a passing log says.
pub record IsCleared (i : GateInputs) (lines : List Text) : Type 0 where
  pub pass : Says (λ rest. rest ≡ codes "pass") lines
  pub census : Says NoSession lines
  pub local : i.expect_local ≡ true → Says ShowsLocal lines
  pub commit : i.commit_test ≡ true → Says ShowsCommit lines

from_line : {A B : Type 0} → (A → ⊥) → A ⊎ B → B
from_line never (inl a) = absurd (never a)
from_line never (inr b) = b

-- A log passes a probe's inputs only with a line "gate: pass", a census line that counts no session,
-- a line that shows synchronous_commit=local where that is expected, and a commit line that says ok
-- where the commit is tested: a log that was cut short before one of them never passes.
pub parse_gate_log-IsCleared :
    (log : Text) (i : GateInputs)
    → passed (parse_gate_log log) i ≡ true
    → IsCleared i (split_lines log)
unfolding parse_gate_log passed
parse_gate_log-IsCleared log i h =
    let g : GateResult = read_gate_lines no_result (split_lines log) in
    record {
      pass =
          from_line (λ q. cc)
            (said (λ rest. rest ≡ codes "pass") (λ r. r.pass ≡ true)
              (λ r rest q. pass_line r rest _ _ _ _ _ _ _ refl q) (split_lines log) no_result
              (ground (arith, h)));
      census =
          from_line (λ q. cc)
            (said NoSession (λ r. census_clear r.census ≡ true)
              (λ r rest q. clear_line r rest _ _ _ _ _ _ _ tt q) (split_lines log) no_result
              (ground (arith, h)));
      local = λ e.
          from_line (λ q. cc)
            (said ShowsLocal (λ r. is_local r.sync_commit ≡ true)
              (λ r rest q. local_line r rest _ _ _ _ _ _ _ refl q) (split_lines log) no_result
              (ground (arith, h, e)));
      commit = λ e.
          from_line (λ q. cc)
            (said ShowsCommit (λ r. is_commit_ok r.commit ≡ true)
              (λ r rest q. commit_line r rest _ _ _ _ _ _ _ refl q) (split_lines log) no_result
              (ground (arith, h, e)));
    }
