-- ===== src/Pgcopydb/Logs/Window.antt =====
-- The terminal window of a log: its last lines that are not blank.
use mathlib.Core.List.{append_assoc, append-nil, cons-ne-nil}
use pgcopydb_operator.Prelude.{
  ℕ, suc, suc, ◌≤◌, ◌≡◌, ◌≢◌, refl, ◌∙◌, ap, sym, arith, ltb, ◌==◌, Bool-cases, inl, inr, Option,
  List, [], ◌∷◌, ◌++◌, length, last, length-append, last_short, last-cons, last-append,
}
use pgcopydb_operator.Text.{Text, trim_space}
use pgcopydb_operator.Text.Lines.{lines, in_front}
use pgcopydb_operator.Pgcopydb.Logs.{
  LogEntry, slide, pushed, recent_from, recent_log_lines, recent_severe_messages,
  permission_denied_line, disk_full_line, snapshot_lost_line, recent_severe_line, schema_drift_line,
}

abbrev with_line : Text → List Text → List Text
with_line [] rest = rest
with_line (c ∷ line) rest = (c ∷ line) ∷ rest

-- The lines that are not blank, without the space around them.
unfoldable pub kept_lines : List Text → List Text
kept_lines [] = []
kept_lines (l ∷ ls) = with_line (trim_space l) (kept_lines ls)

length-snoc : (w : List Text) (l : Text) → length (w ++ l ∷ []) ≡ suc (length w)
length-snoc w l = omega (arith, length-append w (l ∷ []))

slide-length : (w : List Text) (l : Text) → length w ≤ 40 → length (slide (w ++ l ∷ [])) ≤ 40
slide-length [] l h = omega arith
slide-length (y ∷ w) l h = elim (Bool-cases (ltb 40 (suc (length (w ++ l ∷ []))))) [
  | inl q ↦ rw q (omega (arith, length-snoc w l, h))
  | inr q ↦ rw q (ground (arith, q))
]

-- A window one line later shows the same last lines.
slide-last :
    (w : List Text) (l : Text) (rest : List Text)
    → length w ≤ 40
    → last 40 (slide (w ++ l ∷ []) ++ rest) ≡ last 40 (w ++ l ∷ rest)
slide-last [] l rest h = refl
slide-last (y ∷ w) l rest h = elim (Bool-cases (ltb 40 (suc (length (w ++ l ∷ []))))) [
  | inl q ↦ rw q (
      ap (last 40) (append_assoc w (l ∷ []) rest)
      ∙ sym (
          last-cons 40 y (w ++ l ∷ rest)
            (ground (arith, length-snoc w l, length-append w (l ∷ rest)))))
  | inr q ↦ rw q (ap (λ r. last 40 (y ∷ r)) (append_assoc w (l ∷ []) rest))
]

recent_from-pushed :
    (w : List Text) (t : Text) (ls : List Text)
    → ((v : List Text) → length v ≤ 40 → recent_from v ls ≡ last 40 (v ++ kept_lines ls))
    → length w ≤ 40
    → recent_from (pushed w t) ls ≡ last 40 (w ++ with_line t (kept_lines ls))
recent_from-pushed w [] ls rest h = rest w h
recent_from-pushed w (c ∷ t) ls rest h =
    rest (slide (w ++ (c ∷ t) ∷ [])) (slide-length w (c ∷ t) h)
    ∙ slide-last w (c ∷ t) (kept_lines ls) h

recent_from-last :
    (w : List Text) (ls : List Text)
    → length w ≤ 40
    → recent_from w ls ≡ last 40 (w ++ kept_lines ls)
unfolding recent_from kept_lines
recent_from-last w [] h = rw (append-nil w) (sym (last_short 40 w h))
recent_from-last w (l ∷ ls) h =
    recent_from-pushed w (trim_space l) ls (λ v. recent_from-last v ls) h

-- The terminal window is the last forty lines of the log that are not blank, trimmed.
pub recent_log_lines-last : (raw : Text) → recent_log_lines raw ≡ last 40 (kept_lines (lines raw))
unfolding recent_log_lines
recent_log_lines-last raw = recent_from-last [] (lines raw) (omega arith)

with_line-append : (t : Text) (ms ns : List Text) → with_line t (ms ++ ns) ≡ with_line t ms ++ ns
with_line-append [] ms ns = refl
with_line-append (c ∷ t) ms ns = refl

kept_lines-append : (ls ms : List Text) → kept_lines (ls ++ ms) ≡ kept_lines ls ++ kept_lines ms
unfolding kept_lines
kept_lines-append [] ms = refl
kept_lines-append (l ∷ ls) ms =
    ap (with_line (trim_space l)) (kept_lines-append ls ms)
    ∙ with_line-append (trim_space l) (kept_lines ls) (kept_lines ms)

in_front-append :
    (ls ms : List Text) (s : Text) → ls ≢ [] → in_front (ls ++ ms) s ≡ in_front ls s ++ ms
in_front-append [] ms s h = absurd (h refl)
in_front-append (l ∷ ls) ms s h = refl

in_front-ne-nil : (ls : List Text) (s : Text) → in_front ls s ≢ []
in_front-ne-nil [] s = cons-ne-nil s []
in_front-ne-nil (l ∷ ls) s = cons-ne-nil (s ++ l) ls

lines-ne-nil : (s : Text) (c : ℕ) → lines (s ++ c ∷ []) ≢ []
unfolding lines
lines-ne-nil [] c = elim (Bool-cases (c == 10)) [
  | inl q ↦ rw (q, lines) (cons-ne-nil (c ∷ []) [])
  | inr q ↦ rw (q, lines) (cons-ne-nil (c ∷ []) [])
]
lines-ne-nil (d ∷ s) c = elim (Bool-cases (d == 10)) [
  | inl q ↦ rw (q, lines) (cons-ne-nil (d ∷ []) (lines (s ++ c ∷ [])))
  | inr q ↦ rw (q, lines) (in_front-ne-nil (lines (s ++ c ∷ [])) (d ∷ []))
]

-- The lines up to a newline, and of what follows it.
lines-newline : (old new : Text) → lines (old ++ 10 ∷ new) ≡ lines (old ++ 10 ∷ []) ++ lines new
unfolding lines
lines-newline [] new = refl
lines-newline (c ∷ old) new = elim (Bool-cases (c == 10)) [
  | inl q ↦ rw (q, lines) (ap (λ r. (c ∷ []) ∷ r) (lines-newline old new))
  | inr q ↦
      rw (q, lines)
        (ap (λ r. in_front r (c ∷ [])) (lines-newline old new)
          ∙ in_front-append (lines (old ++ 10 ∷ [])) (lines new) (c ∷ []) (lines-ne-nil old 10))
]

-- Behind a newline forty lines that are not blank fill the window: what stands before does not
-- matter.
pub recent_log_lines-tail :
    (old new : Text)
    → 40 ≤ length (kept_lines (lines new))
    → recent_log_lines (old ++ 10 ∷ new) ≡ recent_log_lines new
recent_log_lines-tail old new h =
    recent_log_lines-last (old ++ 10 ∷ new)
    ∙ ap (λ ls. last 40 (kept_lines ls)) (lines-newline old new)
    ∙ ap (last 40) (kept_lines-append (lines (old ++ 10 ∷ [])) (lines new))
    ∙ last-append 40 (kept_lines (lines (old ++ 10 ∷ []))) (kept_lines (lines new)) h
    ∙ sym (recent_log_lines-last new)

module _ (decode : Text → Option LogEntry) where
  -- An old line does not classify an attempt: where forty lines that are not blank follow it, all
  -- four causes are those of the log without it.
  pub causes-tail :
      (old new : Text)
      → 40 ≤ length (kept_lines (lines new))
      → (permission_denied_line decode (old ++ 10 ∷ new) ≡ permission_denied_line decode new)
        × (disk_full_line decode (old ++ 10 ∷ new) ≡ disk_full_line decode new)
        × (snapshot_lost_line decode (old ++ 10 ∷ new) ≡ snapshot_lost_line decode new)
        × (schema_drift_line decode (old ++ 10 ∷ new) ≡ schema_drift_line decode new)
  unfolding permission_denied_line disk_full_line snapshot_lost_line schema_drift_line
      recent_severe_line recent_severe_messages
  causes-tail old new h =
      let e : recent_log_lines (old ++ 10 ∷ new) ≡ recent_log_lines new =
        recent_log_lines-tail old new h in
      (rw e, rw e, rw e, rw e)
