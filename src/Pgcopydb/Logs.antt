-- ===== src/Pgcopydb/Logs.antt =====
-- What a worker's log tells (internal/pgcopydb/logs.go). The two library calls are parameters:
-- `decode` is json.Unmarshal of a line into a logEntry, `none` its error, and `parse_time` is
-- time.Parse with RFC3339Nano. An empty result text is the source's "".
pub mod Window
pub mod Cause
use pgcopydb_operator.Prelude.{
  ℕ, Bool, true, false, not, ◌&&◌, ◌||◌, if◌then◌else◌, ltb, first, length, Option, none, some,
  List, [], ◌∷◌, ◌++◌,
}
use pgcopydb_operator.Migration.{Time}
use pgcopydb_operator.Text.{
  Text, codes, same, cut_prefix, has_prefix, has_suffix, contains, cut, trim_space,
}
use pgcopydb_operator.Text.Lines.{lines}

pub record LogEntry : Type 0 where
  pub severity : Text
  pub message : Text

abbrev pub is_empty : Text → Bool
is_empty [] = true
is_empty (c ∷ s) = false

-- isErrorSeverity
unfoldable pub is_error_severity : Text → Bool
is_error_severity s =
    same s (codes "ERROR")
    || same s (codes "FATAL")
    || same s (codes "CRITICAL")
    || same s (codes "PANIC")

-- permissionWindow
abbrev pub permission_window : ℕ
permission_window = 40

abbrev tail : List Text → List Text
tail [] = []
tail (l ∷ ls) = ls

-- `window = window[1:]` where it has grown past the limit.
abbrev pub slide : List Text → List Text
slide window = if ltb permission_window (length window) then tail window else window

abbrev pushed : List Text → Text → List Text
pushed window [] = window
pushed window (c ∷ line) = slide (window ++ (c ∷ line) ∷ [])

-- The loop of recentLogLines.
unfoldable pub recent_from : List Text → List Text → List Text
recent_from window [] = window
recent_from window (l ∷ ls) = recent_from (pushed window (trim_space l)) ls

-- recentLogLines
unfoldable pub recent_log_lines : Text → List Text
recent_log_lines raw = recent_from [] (lines raw)

-- pgRestoreErrorLine
unfoldable pub pg_restore_error_line : Text → Bool
pg_restore_error_line line = elim (cut_prefix (codes "pg_restore: error:") line) [
  | none ↦ false
  | some rest ↦ contains (codes "ERROR:") rest
]

-- supervisorDeathLine
unfoldable pub supervisor_death_line : Text → Bool
supervisor_death_line line =
    contains (codes "Terminating all processes in our process group") line
    || (contains (codes "clone process") line && contains (codes "has terminated") line)

-- genericFailureSummary
unfoldable pub generic_failure_summary : Text → Bool
generic_failure_summary line =
    supervisor_death_line line
    || has_prefix (codes "Failed to run pg_restore: exit code ") line
    || has_prefix (codes "pg_restore: warning: errors ignored on restore:") line
    || has_suffix (codes ", see above for details") line

-- serverErrorLine
unfoldable pub server_error_line : Text → Bool
server_error_line msg =
    has_prefix (codes "[SOURCE ") msg
    || has_prefix (codes "[TARGET ") msg
    || contains (codes "ERROR:  ") msg
    || contains (codes "FATAL:  ") msg

-- CloneDone
unfoldable pub clone_done : Text → Bool
clone_done raw =
    contains (codes "Updating the pgcopydb.sentinel to enable applying changes") raw
    || contains (codes "All step are now done") raw

module _ (parse_time : Text → Option Time) where
  abbrev stamp : Option (Text × Text) → Option Time
  stamp none = none
  stamp (some (ts, rest)) = parse_time ts

  abbrev or_later : Option Time → Option Time → Option Time
  or_later none later = later
  or_later (some t) later = some t

  -- The loop of SupervisorDeath.
  unfoldable pub death_in : List Text → Option Time
  death_in [] = none
  death_in (l ∷ ls) = elim (supervisor_death_line l) [
    | false ↦ death_in ls
    | true ↦ or_later (stamp (cut (codes " ") l)) (death_in ls)
  ]

  -- SupervisorDeath
  unfoldable pub supervisor_death : Text → Option Time
  supervisor_death raw = death_in (lines raw)

module _ (decode : Text → Option LogEntry) where
  -- parseLogLine
  unfoldable pub parse_log_line : Text → Option LogEntry
  parse_log_line line = elim (has_prefix (codes "{") (trim_space line)) [
    | true ↦ decode (trim_space line)
    | false ↦ none
  ]

  -- One line of recentSevereMessages: the message that it adds, if any.
  abbrev raw_message : Text → Option Text
  raw_message msg =
      if contains (codes "ERROR:") msg || contains (codes "FATAL:") msg then some msg else none

  abbrev entry_message : LogEntry → Option Text
  entry_message e =
      if is_empty e.message
      then none
      else if is_error_severity e.severity || contains (codes "FATAL:") e.message
      then some e.message
      else none

  abbrev message_of : Option LogEntry → Text → Option Text
  message_of none line = raw_message line
  message_of (some e) line = entry_message e

  unfoldable pub severe_message : Text → Option Text
  severe_message line = message_of (parse_log_line line) line

  abbrev collect : Option Text → List Text → List Text
  collect none rest = rest
  collect (some msg) rest = msg ∷ rest

  -- The loop of recentSevereMessages.
  unfoldable pub severe_of : List Text → List Text
  severe_of [] = []
  severe_of (l ∷ ls) = collect (severe_message l) (severe_of ls)

  -- recentSevereMessages
  unfoldable pub recent_severe_messages : Text → List Text
  recent_severe_messages raw = severe_of (recent_log_lines raw)

  -- recentSevereLine
  unfoldable pub recent_severe_line : Text → (Text → Bool) → Option Text
  recent_severe_line raw match = first match (recent_severe_messages raw)

  abbrev pub names_permission : Text → Bool
  names_permission msg =
      contains (codes "permission denied") msg
      || contains (codes "SQLSTATE 42501") msg
      || contains (codes "must be owner of extension") msg

  -- PermissionDeniedLine
  unfoldable pub permission_denied_line : Text → Option Text
  permission_denied_line raw = recent_severe_line raw names_permission

  abbrev pub names_full_disk : Text → Bool
  names_full_disk msg =
      if server_error_line msg || contains (codes "shared memory segment") msg
      then false
      else contains (codes "No space left on device") msg
        || contains (codes "database or disk is full") msg

  -- DiskFullLine
  unfoldable pub disk_full_line : Text → Option Text
  disk_full_line raw = recent_severe_line raw names_full_disk

  -- SnapshotLostLine
  unfoldable pub snapshot_lost_line : Text → Option Text
  snapshot_lost_line raw =
      recent_severe_line raw (has_prefix (codes "Refusing to resume the copy: "))

  -- What one message is to SchemaDriftLine, with its connection's tag.
  pub data DriftPart : Type 0 where
    unrelated : DriftPart
    missing_column pipeline_sync : (tag : Text) → DriftPart

  abbrev on_target : Text → Text → DriftPart
  on_target tag rest =
      if has_prefix (codes "[42703] ") rest
      then missing_column tag
      else if same rest (codes "Context: Failed to receive pipeline sync")
      then pipeline_sync tag
      else unrelated

  abbrev tagged : Option (Text × Text) → DriftPart
  tagged none = unrelated
  tagged (some (tag, rest)) =
      if has_prefix (codes "[TARGET ") tag then on_target tag rest else unrelated

  unfoldable pub drift_part : Text → DriftPart
  drift_part msg = tagged (cut (codes "] ") msg)

  -- One round of the loop of SchemaDriftLine, with its variables line and conn; `rest` is the loop
  -- over the other messages.
  abbrev pub drift_round : DriftPart → (msg line conn : Text) → (Text → Text → Text) → Text
  drift_round unrelated msg line conn rest = rest line conn
  drift_round (missing_column tag) msg line conn rest = rest msg tag
  drift_round (pipeline_sync tag) msg line conn rest =
      if same tag conn then line else rest line conn

  unfoldable pub drift_in : List Text → (line conn : Text) → Text
  drift_in [] line conn = []
  drift_in (msg ∷ ms) line conn = drift_round (drift_part msg) msg line conn (drift_in ms)

  -- SchemaDriftLine
  unfoldable pub schema_drift_line : Text → Text
  schema_drift_line raw = drift_in (recent_severe_messages raw) [] []

  abbrev pub is_cause : LogEntry → Bool
  is_cause e =
      not (is_empty e.message)
      && is_error_severity e.severity
      && not (has_prefix (codes "Command was:") e.message)

  abbrev newer : Text → Option LogEntry → Text
  newer last none = last
  newer last (some e) = if is_cause e then e.message else last

  -- The first loop of LastErrorLine.
  unfoldable pub last_severe : Text → List Text → Text
  last_severe last [] = last
  last_severe last (l ∷ ls) = last_severe (newer last (parse_log_line l)) ls

  abbrev kept_entry : Text → LogEntry → Text
  kept_entry act e =
      if pg_restore_error_line e.message
      then e.message
      else if not (is_empty act) && is_cause e && not (generic_failure_summary e.message)
      then e.message
      else act

  abbrev actionable_next : Text → Text → Option LogEntry → Text
  actionable_next act line none = if pg_restore_error_line line then line else act
  actionable_next act line (some e) = kept_entry act e

  -- The second loop of LastErrorLine.
  unfoldable pub actionable_of : Text → List Text → Text
  actionable_of act [] = act
  actionable_of act (l ∷ ls) = actionable_of (actionable_next act l (parse_log_line l)) ls

  -- LastErrorLine
  unfoldable pub last_error_line : Text → Text
  last_error_line raw =
      let act = actionable_of [] (recent_log_lines raw) in
      if is_empty act then last_severe [] (lines raw) else act
