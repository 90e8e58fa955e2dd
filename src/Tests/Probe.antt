-- ===== src/Tests/Probe.antt =====
-- The retry gate probe's log, read from concrete lines.
use pgcopydb_operator.Prelude.{refl, true, ◌∷◌, ◌++◌}
use pgcopydb_operator.Platform.Types.{GateInputs}
use pgcopydb_operator.Text.{Text, codes, same, has_prefix, cut, cut_prefix, is_space, trim_left}
use pgcopydb_operator.Text.Numbers.{parse_int64, parse_dec, scan_dec}
use pgcopydb_operator.Text.Scan.{scan_int, scan_space, scan_word, span_digits, span_word}
use pgcopydb_operator.Text.Lines.{split_lines}
use pgcopydb_operator.Controller.Probe.{passed}
use pgcopydb_operator.Controller.Probe.Log.{
  parse_gate_log, parse_census, read_gate_lines, gate_text, trim_returns, commit_read, commit_of,
}
use pgcopydb_operator.Controller.Probe.Cleared.{IsCleared, parse_gate_log-IsCleared}

-- The log of a probe that cleared the attempt.
abbrev pub cleared_log : Text
cleared_log =
    codes "gate: census total=0 syncrep=0 named=yes syncrep_since=0 gate_waiting=0"
    ++ 10 ∷ codes "gate: synchronous_commit=local"
    ++ 10 ∷ codes "gate: commit ok"
    ++ 10 ∷ codes "gate: pass"

abbrev all_checks : GateInputs
all_checks = record { expect_local = true; commit_test = true }

parse_gate_log-IsCleared_example : IsCleared all_checks (split_lines cleared_log)
unfolding parse_gate_log passed read_gate_lines split_lines gate_text cut_prefix trim_returns
    has_prefix same parse_census scan_space is_space trim_left scan_int parse_int64 span_digits
    scan_word span_word commit_read commit_of parse_dec scan_dec cut
parse_gate_log-IsCleared_example = parse_gate_log-IsCleared cleared_log all_checks refl
