-- ===== src/Tests/Compare.antt =====
-- The compare progress of a concrete log tail.
use pgcopydb_operator.Prelude.{◌≡◌, refl, false, if◌then◌else◌, Option, none, some, [], ◌∷◌, ◌++◌}
use pgcopydb_operator.Text.{
  Text, codes, same, cut, cut_prefix, has_prefix, trim_space, trim_left, trim_right, is_space,
}
use pgcopydb_operator.Text.Lines.{split_lines}
use pgcopydb_operator.Pgcopydb.Logs.{LogEntry, parse_log_line}
use pgcopydb_operator.Pgcopydb.Compare.{
  CompareProgress, read_progress, newest, last_compare_progress,
}
use pgcopydb_operator.Pgcopydb.Compare.Newest.{Newest, last_compare_progress-Newest}

-- Plain lines only.
abbrev plain : Text → Option LogEntry
plain line = none

abbrev half_way : CompareProgress
half_way = record {
  planned_tables = 8;
  compared_tables = 4;
  planned_bytes = 0;
  compared_bytes = 0;
  compared_rows = 0;
  differing_tables = 0;
  failed_tables = 0;
  elapsed_ms = 0;
  final = false;
  in_flight = [];
}

-- A reader of one object.
abbrev read_half : Text → Option CompareProgress
read_half raw = if same raw (codes "{4/8}") then some half_way else none

-- The last line is cut short.
abbrev cut_tail : Text
cut_tail = codes "INFO compare progress: {4/8}" ++ 10 ∷ codes "INFO compare progress: {5/"

cut_tail_progress : last_compare_progress plain read_half cut_tail ≡ some half_way
unfolding last_compare_progress newest read_progress parse_log_line split_lines cut cut_prefix
    has_prefix same trim_space trim_left trim_right is_space
cut_tail_progress = refl

last_compare_progress-Newest_example :
    Newest plain read_half (split_lines cut_tail) (last_compare_progress plain read_half cut_tail)
last_compare_progress-Newest_example = last_compare_progress-Newest plain read_half cut_tail
