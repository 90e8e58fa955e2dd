-- ===== src/Pgcopydb/Compare.antt =====
-- The compare commands and their progress lines (internal/pgcopydb/compare.go). `decode` and
-- `unmarshal` are json.Unmarshal into a logEntry and into a CompareProgress, `none` its error.
pub mod Newest
use mathlib.Core.List.{reverse}
use pgcopydb_operator.Prelude.{
  ℕ, Bool, true, false, Option, none, some, List, [], ◌∷◌, ◌++◌, if◌then◌else◌,
}
use pgcopydb_operator.Text.{Text, codes, cut, has_prefix}
use pgcopydb_operator.Text.Lines.{split_lines}
use pgcopydb_operator.Pgcopydb.Args.{work_dir}
use pgcopydb_operator.Pgcopydb.Logs.{LogEntry, parse_log_line}

-- CompareSchemaArgs
abbrev pub compare_schema_args : Bool → List Text
compare_schema_args all_databases =
    (codes "compare" ∷ codes "schema" ∷ codes "--dir" ∷ work_dir ∷ [])
    ++ (if all_databases then codes "--all-databases" ∷ [] else [])

-- CompareDataArgs
abbrev pub compare_data_args : List Text
compare_data_args = codes "compare" ∷ codes "data" ∷ codes "--dir" ∷ work_dir ∷ codes "--json" ∷ []

-- CompareInFlightTable; all counts are int64
pub record InFlightTable : Type 0 where
  pub schema : Text
  pub name : Text
  pub bytes : ℕ
  pub elapsed_ms : ℕ

pub record CompareProgress : Type 0 where
  pub planned_tables : ℕ
  pub compared_tables : ℕ
  pub planned_bytes : ℕ
  pub compared_bytes : ℕ
  pub compared_rows : ℕ
  pub differing_tables : ℕ
  pub failed_tables : ℕ
  pub elapsed_ms : ℕ
  pub final : Bool
  pub in_flight : List InFlightTable

-- CompareProgressPrefix
abbrev compare_progress_prefix : Text
compare_progress_prefix = codes "compare progress: "

-- The message of a structured line, or the line itself.
abbrev pub message_in : Text → Option LogEntry → Text
message_in line none = line
message_in line (some e) = e.message

module _ (decode : Text → Option LogEntry) (unmarshal : Text → Option CompareProgress) where
  -- What stands behind the prefix is read where it opens an object.
  abbrev pub read_raw : Option (Text × Text) → Option CompareProgress
  read_raw none = none
  read_raw (some (before, raw)) = if has_prefix (codes "{") raw then unmarshal raw else none

  -- One round of the loop: `none` goes on to the line before.
  unfoldable pub read_progress : Text → Option CompareProgress
  read_progress line =
      read_raw (cut compare_progress_prefix (message_in line (parse_log_line decode line)))

  -- The loop of LastCompareProgress, over the lines from the last one backward.
  unfoldable pub newest : List Text → Option CompareProgress
  newest [] = none
  newest (l ∷ ls) = elim (read_progress l) [ some p ↦ some p | none ↦ newest ls ]

  -- LastCompareProgress
  unfoldable pub last_compare_progress : Text → Option CompareProgress
  last_compare_progress tail = newest (reverse (split_lines tail))
