-- ===== src/Pgcopydb/Logs/Cause.antt =====
-- Which line of a log is named as the cause of a failed attempt.
pub mod Drift
use mathlib.Core.List.{cons-ne-nil}
use pgcopydb_operator.Prelude.{
  ◌≡◌, ◌≢◌, refl, arith, true, false, Bool, not, ◌&&◌, ◌||◌, if◌then◌else◌, Bool-cases, ◌⊎◌, inl,
  inr, Option, none, some, List, [], ◌∷◌, ◌++◌, Option-cases,
}
use pgcopydb_operator.Text.{Text, codes, cut_prefix, has_prefix, contains}
use pgcopydb_operator.Text.Lines.{lines}
use pgcopydb_operator.Pgcopydb.Logs.{
  LogEntry, is_empty, is_cause, parse_log_line, pg_restore_error_line, generic_failure_summary,
  clone_done, recent_log_lines, actionable_next, actionable_of, last_error_line,
}

cut_prefix-append : (p s t : Text) → has_prefix p s ≡ true → has_prefix p (s ++ t) ≡ true
unfolding has_prefix cut_prefix
cut_prefix-append [] s t h = refl
cut_prefix-append (c ∷ p) [] t h = absurd (cc)
cut_prefix-append (c ∷ p) (d ∷ s) t h = ground (arith, cut_prefix-append p s t)

contains-nil : (p t : Text) → has_prefix p [] ≡ true → contains p t ≡ true
unfolding contains has_prefix cut_prefix
contains-nil [] [] h = refl
contains-nil [] (c ∷ t) h = refl
contains-nil (d ∷ p) t h = absurd (cc)

contains-append : (p s t : Text) → contains p s ≡ true → contains p (s ++ t) ≡ true
unfolding contains
contains-append p [] t h = contains-nil p t h
contains-append p (c ∷ s) t h = ground (arith, contains-append p s t, cut_prefix-append p (c ∷ s) t)

contains-behind : (p s t : Text) → contains p t ≡ true → contains p (s ++ t) ≡ true
unfolding contains
contains-behind p [] t h = h
contains-behind p (c ∷ s) t h = ground (arith, contains-behind p s t)

-- A log that shows the end of the clone shows it with more text before and behind it.
pub clone_done-append :
    (before raw more : Text) → clone_done raw ≡ true → clone_done (before ++ (raw ++ more)) ≡ true
unfolding clone_done
clone_done-append before raw more h = ground (
  arith,
  grown (codes "Updating the pgcopydb.sentinel to enable applying changes"),
  grown (codes "All step are now done"),
)
  where
    grown : (p : Text) → contains p raw ≡ true → contains p (before ++ (raw ++ more)) ≡ true
    grown p q = contains-behind p before (raw ++ more) (contains-append p raw more q)

module _ (decode : Text → Option LogEntry) where
  -- The message of a line as the second loop reads it.
  abbrev pub shown_as : Text → Option LogEntry → Text
  shown_as line none = line
  shown_as line (some e) = e.message

  abbrev pub Among : Text → List Text → Type 0
  Among l [] = ⊥
  Among l (m ∷ ms) = (l ≡ m) ⊎ Among l ms

  -- A message that may be shown as the error of a failed attempt: a relayed pg_restore error of one
  -- of the lines, or the message of one that is structured, of an error severity.
  pub data NamesError (ls : List Text) : Text → Type 0 where
    relayed :
        (line : Text)
        → Among line ls
        → pg_restore_error_line (shown_as line (parse_log_line decode line)) ≡ true
        → NamesError ls (shown_as line (parse_log_line decode line))
    severe :
        (line : Text) (e : LogEntry)
        → Among line ls
        → parse_log_line decode line ≡ some e
        → is_cause decode e ≡ true
        → NamesError ls e.message

  -- No line is a structured one of an error severity that echoes no command.
  abbrev pub Causeless : List Text → Type 0
  Causeless [] = Unit
  Causeless (l ∷ ls) =
      ((e : LogEntry) → parse_log_line decode l ≡ some e → is_cause decode e ≡ false) × Causeless ls

  -- What an error line may be: the error of a line of the window, or of the log; or empty, where no
  -- line of the log is an error.
  abbrev pub Named : Text → Text → Type 0
  Named raw msg =
      NamesError (recent_log_lines raw) msg
      ⊎ (NamesError (lines raw) msg ⊎ ((msg ≡ []) × Causeless (lines raw)))

  abbrev Found : List Text → Text → Type 0
  Found all msg = (msg ≡ []) ⊎ NamesError all msg

  -- A text that the loop keeps once a pg_restore error was seen.
  abbrev pub IsActionable : Text → Type 0
  IsActionable msg =
      (pg_restore_error_line msg ≡ true) ⊎ ((msg ≢ []) × (generic_failure_summary msg ≡ false))

  -- Some line relays a pg_restore error.
  abbrev pub Relays : List Text → Type 0
  Relays [] = ⊥
  Relays (l ∷ ls) =
      (pg_restore_error_line (shown_as l (parse_log_line decode l)) ≡ true) ⊎ Relays ls

  pg_restore_error_line-filled : (msg : Text) → pg_restore_error_line msg ≡ true → msg ≢ []
  unfolding pg_restore_error_line cut_prefix
  pg_restore_error_line-filled [] h = absurd (cc)
  pg_restore_error_line-filled (c ∷ msg) h = cons-ne-nil c msg

  actionable_next-relayed :
      (act l : Text) (o : Option LogEntry)
      → pg_restore_error_line (shown_as l o) ≡ true
      → IsActionable (actionable_next decode act l o)
  actionable_next-relayed act l none h = rw h (inl h)
  actionable_next-relayed act l (some e) h = rw h (inl h)

  filled : (msg : Text) → is_empty msg ≡ false → msg ≢ []
  filled [] h = absurd (cc)
  filled (c ∷ msg) h = cons-ne-nil c msg

  actionable_next-kept :
      (act l : Text) (o : Option LogEntry)
      → IsActionable act
      → IsActionable (actionable_next decode act l o)
  actionable_next-kept act l none h = ground (arith, h)
  actionable_next-kept act l (some e) h = elim (Bool-cases (pg_restore_error_line e.message)) [
    | inl r ↦ rw r (inl r)
    | inr r ↦
        rw r
          (elim (Bool-cases
            (not (is_empty act) && is_cause decode e && not (generic_failure_summary e.message))) [
              | inl c ↦ rw c (inr (filled e.message (ground (arith, c)), ground (arith, c)))
              | inr c ↦ rw c h
            ])
  ]

  actionable_of-kept :
      (act : Text) (ls : List Text) → IsActionable act → IsActionable (actionable_of decode act ls)
  unfolding actionable_of
  actionable_of-kept act [] h = h
  actionable_of-kept act (l ∷ ls) h =
      actionable_of-kept (actionable_next decode act l (parse_log_line decode l)) ls
        (actionable_next-kept act l (parse_log_line decode l) h)

  actionable_of-relayed :
      (act : Text) (ls : List Text) → Relays ls → IsActionable (actionable_of decode act ls)
  unfolding actionable_of
  actionable_of-relayed act [] h = absurd h
  actionable_of-relayed act (l ∷ ls) (inl h) =
      actionable_of-kept (actionable_next decode act l (parse_log_line decode l)) ls
        (actionable_next-relayed act l (parse_log_line decode l) h)
  actionable_of-relayed act (l ∷ ls) (inr h) =
      actionable_of-relayed (actionable_next decode act l (parse_log_line decode l)) ls h

  IsActionable-filled : (msg : Text) → IsActionable msg → is_empty msg ≡ false
  IsActionable-filled [] (inl h) = absurd (pg_restore_error_line-filled [] h refl)
  IsActionable-filled [] (inr (h, g)) = absurd (h refl)
  IsActionable-filled (c ∷ msg) h = refl

  -- Where a line of the terminal window relays a pg_restore error, the error line is such an error
  -- or is not empty and no generic
  -- summary of the teardown.
  pub last_error_line-IsActionable :
      (raw : Text) → Relays (recent_log_lines raw) → IsActionable (last_error_line decode raw)
  unfolding last_error_line
  last_error_line-IsActionable raw h =
      let a : IsActionable (actionable_of decode [] (recent_log_lines raw)) =
        actionable_of-relayed [] (recent_log_lines raw) h in
      rw (IsActionable-filled _ a) a
