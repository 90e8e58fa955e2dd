-- ===== src/Progress.antt =====
-- Progress samples (internal/progress/progress.go): the parsers of the sampling script's output. A
-- map of texts is a function, the empty text its missing key.
pub mod Report
pub mod Withheld
pub mod Stages
use pgcopydb_operator.Prelude.{
  ℕ, Bool, true, false, not, ◌&&◌, ◌||◌, ◌==◌, leb, if◌then◌else◌, is_some, Option, none, some,
  List, [], ◌∷◌, ◌++◌,
}
use pgcopydb_operator.Prelude.Word.{lt64, sub64}
use pgcopydb_operator.Platform.Types.{Sample, RelationCounts, SyncRepWait}
use pgcopydb_operator.Text.{
  Text, codes, same, is_space, cut, cut_prefix, has_prefix, trim_left, trim_space, fields,
}
use pgcopydb_operator.Text.Numbers.{parse_int64}
use pgcopydb_operator.Text.Lines.{split_lines}
use pgcopydb_operator.Text.Scan.{scan_int, scan_space, ◌>>=◌}

abbrev pub withheld_reason : Text
withheld_reason =
    codes "psql failed with a client-side message, withheld because it can echo the connection URI"

-- serverReason
unfoldable pub server_reason : Text → Text
server_reason [] = []
server_reason (c ∷ msg) =
    if has_prefix (codes "ERROR:") (c ∷ msg)
      || has_prefix (codes "FATAL:") (c ∷ msg)
      || has_prefix (codes "psql: error: connection to server at ") (c ∷ msg)
    then c ∷ msg
    else withheld_reason

abbrev number_then : Option ℕ → Option (List ℕ) → Option (List ℕ)
number_then none rest = none
number_then (some v) none = none
number_then (some v) (some vs) = some (v ∷ vs)

-- The loop of parseFields; `none` is its early return.
unfoldable pub numbers_of : List Text → Option (List ℕ)
numbers_of [] = some []
numbers_of (f ∷ fs) = number_then (parse_int64 f) (numbers_of fs)

abbrev or_nil : Option (List ℕ) → List ℕ
or_nil none = []
or_nil (some vs) = vs

-- parseFields: nil and the empty slice are the same to its callers.
unfoldable pub parse_fields : Text → List ℕ
parse_fields s = or_nil (numbers_of (fields s))

-- The three numbers of the stage line: "%d %d %d".
unfoldable pub scan_three : Text → Option (ℕ × ℕ × ℕ)
scan_three s = do
  (a, s1) ← scan_int s
  s2 ← scan_space s1
  (b, s3) ← scan_int s2
  s4 ← scan_space s3
  (c, s5) ← scan_int s4
  some (a, b, c)

pub record Stage : Type 0 where
  pub copying : Bool
  pub finalizing : Bool
  pub started : Bool

abbrev pub stage_of : Option (ℕ × ℕ × ℕ) → Stage
stage_of none = record { copying = false; finalizing = false; started = false }
stage_of (some (n_copy, n_other, n_workers)) = record {
  copying = lt64 0 n_copy;
  finalizing = n_copy == 0 && lt64 0 n_other;
  started = lt64 0 n_copy || lt64 0 n_workers;
}

-- parseStage
unfoldable pub parse_stage : Text → Stage
parse_stage v = stage_of (scan_three (trim_space v))

-- The variables of parseSample's loop.
pub record Rows : Type 0 where
  pub src : List ℕ
  pub tgt : List ℕ
  pub sync_rep : List ℕ
  pub owed : Text
  pub stage : Stage
  pub reasons : Text → Text

abbrev pub read_error : Rows → Option (Text × Text) → Rows
read_error r none = r
read_error r (some (side, v)) = record r {
  reasons = λ j. if same side j then server_reason (trim_space v) else r.reasons j;
}

-- One line, by what follows each prefix: the first that it has counts.
abbrev pub read_as : Rows → Text → (src tgt owed stage sync_rep : Option Text) → Rows
read_as r line (some v) tgt owed stage sync_rep = record r { src = parse_fields v }
read_as r line none (some v) owed stage sync_rep = record r { tgt = parse_fields v }
read_as r line none none (some v) stage sync_rep = record r { owed = trim_space v }
read_as r line none none none (some v) sync_rep = record r { stage = parse_stage v }
read_as r line none none none none (some v) = record r { sync_rep = parse_fields v }
read_as r line none none none none none = read_error r (cut (codes "_error=") line)

unfoldable pub read_line : Rows → Text → Rows
read_line r line =
    read_as r line (cut_prefix (codes "source=") line) (cut_prefix (codes "target=") line)
      (cut_prefix (codes "owed=") line) (cut_prefix (codes "stage=") line)
      (cut_prefix (codes "syncrep=") line)

unfoldable pub read_lines : Rows → List Text → Rows
read_lines r [] = r
read_lines r (l ∷ ls) = read_lines (read_line r l) ls

abbrev pub no_rows : Rows
no_rows = record {
  src = [];
  tgt = [];
  sync_rep = [];
  owed = [];
  stage = record { copying = false; finalizing = false; started = false };
  reasons = λ side. [];
}

-- The row of six, five or three figures that was read, `none` where it has another length.
abbrev pub source_row : List ℕ → Option (ℕ × ℕ × ℕ × ℕ × ℕ × ℕ)
source_row (a ∷ b ∷ c ∷ d ∷ e ∷ f ∷ []) = some (a, b, c, d, e, f)
source_row _ = none

abbrev pub target_row : List ℕ → Option (ℕ × ℕ × ℕ × ℕ × ℕ)
target_row (a ∷ b ∷ c ∷ d ∷ e ∷ []) = some (a, b, c, d, e)
target_row _ = none

abbrev pub sync_rep_row : List ℕ → Option SyncRepWait
sync_rep_row (a ∷ b ∷ c ∷ []) =
    some (record { waiting = a; oldest_seconds = b; pgcopydb_named = c })
sync_rep_row _ = none

abbrev source_size_of : Option (ℕ × ℕ × ℕ × ℕ × ℕ × ℕ) → Option ℕ
source_size_of none = none
source_size_of (some (a, b, c, d, e, f)) = some a

abbrev target_size_of : Option (ℕ × ℕ × ℕ × ℕ × ℕ) → Option ℕ
target_size_of none = none
target_size_of (some (a, b, c, d, e)) = some a

-- Counts need both sides and a target with a table.
abbrev counts_of :
    Option (ℕ × ℕ × ℕ × ℕ × ℕ × ℕ) → Option (ℕ × ℕ × ℕ × ℕ × ℕ) → Text → Option RelationCounts
counts_of none tgt owed = none
counts_of (some src) none owed = none
counts_of (some (size, tables, filled, indexes, bytes, owing))
      (some (t_size, t_tables, t_filled, t_indexes, t_bytes)) owed =
    if lt64 0 t_tables
    then some (record {
      tables_total = tables;
      tables_done = sub64 tables owing;
      indexes_total = indexes;
      indexes_done = t_indexes;
      bytes_total = bytes;
      bytes_done = t_bytes;
      empty_on_target = owed;
    })
    else none

-- The map Lost: a side that gave no row, under its reason.
abbrev lost_of : Rows → Text → Option Text
lost_of r side =
    if (same side (codes "source") && not (is_some (source_row r.src)))
      || (same side (codes "target") && not (is_some (target_row r.tgt)))
      || (same side (codes "syncrep") && not (is_some (sync_rep_row r.sync_rep)))
    then some (r.reasons side)
    else none

unfoldable pub sample_of : Rows → Sample
sample_of r = record {
  source_size = source_size_of (source_row r.src);
  target_size = target_size_of (target_row r.tgt);
  counts = counts_of (source_row r.src) (target_row r.tgt) r.owed;
  copying = r.stage.copying;
  finalizing = r.stage.finalizing;
  copy_started = r.stage.started;
  sync_rep = sync_rep_row r.sync_rep;
  lost = lost_of r;
}

-- parseSample
unfoldable pub parse_sample : Text → Sample
parse_sample out = sample_of (read_lines no_rows (split_lines out))
