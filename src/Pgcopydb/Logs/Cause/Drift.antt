-- ===== src/Pgcopydb/Logs/Cause/Drift.antt =====
-- The schema drift that SchemaDriftLine finds.
use pgcopydb_operator.Prelude.{
  ◌≡◌, ◌≢◌, refl, sym, ap, subst, ◌∙◌, Bool-cases, ◌⊎◌, inl, inr, Option, List, [], ◌∷◌,
}
use pgcopydb_operator.Text.{Text, same}
use pgcopydb_operator.Text.Laws.{same_sound}
use pgcopydb_operator.Pgcopydb.Logs.{
  LogEntry, DriftPart, unrelated, missing_column, pipeline_sync, drift_part, drift_round, drift_in,
  recent_severe_messages, schema_drift_line,
}

module _ (decode : Text → Option LogEntry) where
  -- A message that reports no missing column.
  abbrev pub Passes : DriftPart decode → Type 0
  Passes unrelated = Unit {0}
  Passes (missing_column tag) = ⊥
  Passes (pipeline_sync tag) = Unit {0}

  -- The connection of a tag reports the pipeline sync before any other missing column.
  pub data Synced (tag : Text) : List Text → Type 0 where
    synced :
        {msg : Text} {ms : List Text}
        → drift_part decode msg ≡ pipeline_sync tag
        → Synced tag (msg ∷ ms)
    passing :
        {msg : Text} {ms : List Text}
        → Passes (drift_part decode msg)
        → Synced tag ms
        → Synced tag (msg ∷ ms)

  -- A message reports a missing column on a connection that then reports the pipeline sync.
  pub data Drifts (line : Text) : List Text → Type 0 where
    drifts :
        {ms : List Text} (tag : Text)
        → drift_part decode line ≡ missing_column tag
        → Synced tag ms
        → Drifts line (line ∷ ms)
    later : {msg : Text} {ms : List Text} → Drifts line ms → Drifts line (msg ∷ ms)

  round-Drifts :
      (p : DriftPart decode) (msg line conn r : Text) (ms : List Text)
      → drift_part decode msg ≡ p
      → ((l c : Text) → drift_in decode ms l c ≡ r → r ≢ [] → (Synced c ms × (r ≡ l)) ⊎ Drifts r ms)
      → drift_round decode p msg line conn (drift_in decode ms) ≡ r
      → r ≢ []
      → (Synced conn (msg ∷ ms) × (r ≡ line)) ⊎ Drifts r (msg ∷ ms)
  round-Drifts unrelated msg line conn r ms e rest h n = elim (rest line conn h n) [
    | inl (s, q) ↦ inl (passing (subst Passes (sym e) tt) s, q)
    | inr d ↦ inr (later d)
  ]
  round-Drifts (missing_column tag) msg line conn r ms e rest h n = elim (rest msg tag h n) [
    | inl (s, q) ↦ inr (subst (λ l. Drifts l (msg ∷ ms)) (sym q) (drifts tag e s))
    | inr d ↦ inr (later d)
  ]
  round-Drifts (pipeline_sync tag) msg line conn r ms e rest h n =
      elim (Bool-cases (same tag conn)) [
        | inl q ↦ inl (synced (e ∙ ap pipeline_sync (same_sound tag conn q)), sym h ∙ rw q)
        | inr q ↦ elim (rest line conn (rw q at h) n) [
          | inl (s, w) ↦ inl (passing (subst Passes (sym e) tt) s, w)
          | inr d ↦ inr (later d)
        ]
      ]

  drift_in-Drifts :
      (ms : List Text) (line conn r : Text)
      → drift_in decode ms line conn ≡ r
      → r ≢ []
      → (Synced conn ms × (r ≡ line)) ⊎ Drifts r ms
  unfolding drift_in
  drift_in-Drifts [] line conn r h n = absurd (n (sym h))
  drift_in-Drifts (msg ∷ ms) line conn r h n =
      round-Drifts (drift_part decode msg) msg line conn r ms refl (λ l c. drift_in-Drifts ms l c r)
        h n

  -- A line that is named as schema drift reports a missing column on a connection that reports the
  -- pipeline sync later in the window, with no other missing column in between.
  pub schema_drift_line-Drifts :
      (raw : Text)
      → schema_drift_line decode raw ≢ []
      → Drifts (schema_drift_line decode raw) (recent_severe_messages decode raw)
  unfolding schema_drift_line
  schema_drift_line-Drifts raw n =
      elim (drift_in-Drifts (recent_severe_messages decode raw) [] [] _ refl n) [
        | inl (s, q) ↦ absurd (n q)
        | inr d ↦ d
      ]
