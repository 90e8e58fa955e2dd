-- ===== src/Controller/Probe/Log.antt =====
-- Reading a retry gate probe's log (retry_gate_job.go: parseGateLog, parseCensus). The psql errors and
-- the session lines, which only the hold's message shows, are left out.
use pgcopydb_operator.Prelude.{
  ℕ, Bool, true, false, ◌==◌, if◌then◌else◌, Option, none, some, List, [], ◌∷◌,
}
use pgcopydb_operator.Platform.Types.{
  GateCensus, GateResult, CommitResult, commit_absent, commit_ok, commit_blocked, commit_skipped,
  commit_failed, commit_other,
}
use pgcopydb_operator.Text.{Text, codes, same, cut, cut_prefix, has_prefix}
use pgcopydb_operator.Text.Lines.{split_lines}
use pgcopydb_operator.Text.Scan.{scan_int, scan_word, scan_space, ◌>>=◌}

abbrev kept_return : ℕ → Text → Text
kept_return c [] = if c == 13 then [] else c ∷ []
kept_return c (d ∷ s) = c ∷ d ∷ s

-- strings.TrimRight(line, "\r")
unfoldable pub trim_returns : Text → Text
trim_returns [] = []
trim_returns (c ∷ s) = kept_return c (trim_returns s)

-- What stands behind "gate: ".
unfoldable pub gate_text : Text → Option Text
gate_text line = cut_prefix (codes "gate: ") (trim_returns line)

abbrev census_of : ℕ → ℕ → Text → ℕ → ℕ → GateCensus
census_of total sync_rep named since waiting = record {
  total = total;
  sync_rep = sync_rep;
  gate_waiting = waiting;
  sync_rep_since = since;
  named = same named (codes "yes");
}

-- parseCensus: the format's literals, spaces and verbs in their order.
unfoldable pub parse_census : Text → Option GateCensus
parse_census line = do
  s1 ← cut_prefix (codes "census") line
  s2 ← scan_space s1
  s3 ← cut_prefix (codes "total=") s2
  (total, s4) ← scan_int s3
  s5 ← scan_space s4
  s6 ← cut_prefix (codes "syncrep=") s5
  (sync_rep, s7) ← scan_int s6
  s8 ← scan_space s7
  s9 ← cut_prefix (codes "named=") s8
  (named, s10) ← scan_word s9
  s11 ← scan_space s10
  s12 ← cut_prefix (codes "syncrep_since=") s11
  (since, s13) ← scan_int s12
  s14 ← scan_space s13
  s15 ← cut_prefix (codes "gate_waiting=") s14
  (waiting, s16) ← scan_int s15
  some (census_of total sync_rep named since waiting)

-- The constants of the commit test's results; the empty text is no result.
unfoldable pub commit_of : Text → CommitResult
commit_of [] = commit_absent
commit_of (c ∷ s) =
    if same (c ∷ s) (codes "ok")
    then commit_ok
    else if same (c ∷ s) (codes "blocked")
    then commit_blocked
    else if same (c ∷ s) (codes "skipped")
    then commit_skipped
    else if same (c ∷ s) (codes "failed")
    then commit_failed
    else commit_other

abbrev pub before : Text → Option (Text × Text) → Text
before v none = v
before v (some (w, rest)) = w

-- The first word of a commit line.
unfoldable pub commit_read : Text → CommitResult
commit_read v = commit_of (before v (cut (codes " ") v))

abbrev pub first_census : GateResult → Option GateCensus → Option GateCensus → GateResult
first_census g none new = record g { census = new }
first_census g (some c) new = g

-- One line behind "gate: ", by what follows each prefix: the first that it has counts.
abbrev pub gate_line :
    GateResult
    → Text
    → (census_failed : Option Text) → (census : Bool)
    → (session sync_failed sync commit : Option Text) → (pass : Bool) → GateResult
gate_line g rest (some v) census session sync_failed sync commit pass = g
gate_line g rest none true session sync_failed sync commit pass =
    first_census g g.census (parse_census rest)
gate_line g rest none false (some v) sync_failed sync commit pass = g
gate_line g rest none false none (some v) sync commit pass = g
gate_line g rest none false none none (some v) commit pass = record g {
  sync_commit = some (same v (codes "local"));
}
gate_line g rest none false none none none (some v) pass = record g { commit = commit_read v }
gate_line g rest none false none none none none true = record g { pass = true }
gate_line g rest none false none none none none false = g

abbrev pub gate_read : GateResult → Option Text → GateResult
gate_read g none = g
gate_read g (some rest) =
    gate_line g rest (cut_prefix (codes "census failed ") rest) (has_prefix (codes "census ") rest)
      (cut_prefix (codes "session ") rest) (cut_prefix (codes "synchronous_commit failed ") rest)
      (cut_prefix (codes "synchronous_commit=") rest) (cut_prefix (codes "commit ") rest)
      (same rest (codes "pass"))

unfoldable pub read_gate_lines : GateResult → List Text → GateResult
read_gate_lines g [] = g
read_gate_lines g (l ∷ ls) = read_gate_lines (gate_read g (gate_text l)) ls

abbrev pub no_result : GateResult
no_result = record { census = none; sync_commit = none; commit = commit_absent; pass = false }

-- parseGateLog
unfoldable pub parse_gate_log : Text → GateResult
parse_gate_log log = read_gate_lines no_result (split_lines log)
