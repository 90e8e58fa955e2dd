-- ===== src/Controller/WorkerLog/Cause.antt =====
-- What the log of a failed worker must show for each verdict on the attempt.
use pgcopydb_operator.Prelude.{
  ◌≡◌, refl, arith, Bool, true, false, not, Option, is_some, List, [], ◌∷◌, Bool-cases, inl, inr,
  ◌⊎◌, first,
}
use pgcopydb_operator.Migration.{Time}
use pgcopydb_operator.Migration.Conditions.{
  permission_denied, disk_full, schema_drift, snapshot_lost,
}
use pgcopydb_operator.Platform.Types.{WorkerLog}
use pgcopydb_operator.Text.{Text, codes, has_prefix}
use pgcopydb_operator.Pgcopydb.Logs.{
  LogEntry, is_empty, permission_denied_line, disk_full_line, snapshot_lost_line, schema_drift_line,
  recent_severe_line, recent_severe_messages, names_permission, names_full_disk,
}
use pgcopydb_operator.Controller.Attempt.{Cause, terminal, start_over, retryable, failure_cause}
use pgcopydb_operator.Controller.WorkerLog.{read_worker_log}

-- Some message passes the test, or none does.
abbrev pub Shown : (Text → Bool) → List Text → Type 0
Shown p [] = ⊥
Shown p (m ∷ ms) = (p m ≡ true) ⊎ Shown p ms

abbrev pub Absent : (Text → Bool) → List Text → Type 0
Absent p [] = Unit
Absent p (m ∷ ms) = (p m ≡ false) × Absent p ms

-- The messages read against the answer of a test over them.
abbrev pub Judged : (Text → Bool) → List Text → Bool → Type 0
Judged p ms true = Shown p ms
Judged p ms false = Absent p ms

later-Judged :
    (p : Text → Bool) (m : Text) (ms : List Text) (b : Bool)
    → p m ≡ false
    → Judged p ms b
    → Judged p (m ∷ ms) b
later-Judged p m ms true q h = inr h
later-Judged p m ms false q h = (q, h)

first-Judged : (p : Text → Bool) (ms : List Text) → Judged p ms (is_some (first p ms))
unfolding first
first-Judged p [] = tt
first-Judged p (m ∷ ms) = elim (Bool-cases (p m)) [
  | inl q ↦ rw (q, first) (inl q)
  | inr q ↦ rw (q, first) (later-Judged p m ms (is_some (first p ms)) q (first-Judged p ms))
]

abbrev pub names_lost_snapshot : Text → Bool
names_lost_snapshot msg = has_prefix (codes "Refusing to resume the copy: ") msg

empty_text : (s : Text) → not (is_empty s) ≡ false → s ≡ []
empty_text [] h = refl
empty_text (c ∷ s) h = ground (arith, h)

full_text : (s : Text) → not (is_empty s) ≡ true → is_empty s ≡ false
full_text s h = ground (arith, h)

module _ (decode : Text → Option LogEntry) where
  -- What the severe messages of the window and its line of schema drift must be for a verdict: the
  -- first cause that they name, in the order of the tests.
  abbrev pub Justified : (ms : List Text) (drift : Text) (drop_if_exists : Bool) → Cause → Type 0
  Justified ms drift drop (terminal permission_denied) = Shown (names_permission decode) ms
  Justified ms drift drop (terminal disk_full) =
      Absent (names_permission decode) ms × Shown (names_full_disk decode) ms
  Justified ms drift drop (terminal schema_drift) =
      Absent (names_permission decode) ms
      × Absent (names_full_disk decode) ms
      × (is_empty drift ≡ false)
  Justified ms drift drop (terminal snapshot_lost) =
      Absent (names_permission decode) ms
      × Absent (names_full_disk decode) ms
      × (drift ≡ [])
      × Shown names_lost_snapshot ms
      × (drop ≡ false)
  Justified ms drift drop start_over =
      Absent (names_permission decode) ms
      × Absent (names_full_disk decode) ms
      × (drift ≡ [])
      × Shown names_lost_snapshot ms
      × (drop ≡ true)
  Justified ms drift drop retryable =
      Absent (names_permission decode) ms
      × Absent (names_full_disk decode) ms
      × (drift ≡ [])
      × Absent names_lost_snapshot ms
  Justified ms drift drop (terminal _) = ⊥

  judged :
      (ms : List Text) (drift : Text) (log : WorkerLog) (drop a b c d : Bool)
      → log.permission_denied ≡ a
      → log.disk_full ≡ b
      → log.schema_drift ≡ c
      → log.snapshot_lost ≡ d
      → Judged (names_permission decode) ms a
      → Judged (names_full_disk decode) ms b
      → not (is_empty drift) ≡ c
      → Judged names_lost_snapshot ms d
      → Justified ms drift drop (failure_cause log drop)
  unfolding failure_cause
  judged ms drift log drop true b c d p q r s hp hd hs hl = rw (p, failure_cause) hp
  judged ms drift log drop false true c d p q r s hp hd hs hl = rw (p, q, failure_cause) (hp, hd)
  judged ms drift log drop false false true d p q r s hp hd hs hl =
      rw (p, q, r, failure_cause) (hp, hd, full_text drift hs)
  judged ms drift log true false false false true p q r s hp hd hs hl =
      rw (p, q, r, s, failure_cause) (hp, hd, empty_text drift hs, hl, refl)
  judged ms drift log false false false false true p q r s hp hd hs hl =
      rw (p, q, r, s, failure_cause) (hp, hd, empty_text drift hs, hl, refl)
  judged ms drift log drop false false false false p q r s hp hd hs hl =
      rw (p, q, r, s, failure_cause) (hp, hd, empty_text drift hs, hl)

  -- The verdict on a failed attempt is the first cause that the log's window names: a permission error,
  -- a full disk, schema drift, a lost snapshot, which starts over exactly with dropIfExists; and the
  -- attempt is retried exactly where the window names none of them.
  pub failure_cause-Justified :
      (parse_time : Text → Option Time) (tail : Text) (drop : Bool)
      → Justified
          (recent_severe_messages decode tail)
          (schema_drift_line decode tail)
          drop
          (failure_cause (read_worker_log decode parse_time tail) drop)
  unfolding read_worker_log permission_denied_line disk_full_line snapshot_lost_line
      recent_severe_line
  failure_cause-Justified parse_time tail drop =
      let ms : List Text = recent_severe_messages decode tail in
      judged ms (schema_drift_line decode tail) (read_worker_log decode parse_time tail) drop _ _ _
        _ refl refl refl refl (first-Judged (names_permission decode) ms)
        (first-Judged (names_full_disk decode) ms) refl (first-Judged names_lost_snapshot ms)
