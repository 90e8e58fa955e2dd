-- ===== src/Progress/Report.antt =====
-- What the sampling script prints is what parseSample reads.
use mathlib.Core.List.{cons-ne-nil}
use pgcopydb_operator.Prelude.{
  ℕ, ◌-◌, ◌<◌, ◌≤◌, ◌≡◌, ◌≢◌, refl, ◌∙◌, ap, arith, Bool, true, false, Bool-cases, inl, inr, ltb,
  ◌==◌, none, some, List, map, [], ◌∷◌, ◌++◌,
}
use pgcopydb_operator.Prelude.Word.{sub64}
use pgcopydb_operator.Text.{
  Text, codes, is_space, fields, fields_from, close, trim_space, cut, cut_prefix, same,
}
use pgcopydb_operator.Text.Laws.{
  Free, free, free-Free, Free-append, fields_from-word, fields_from-last,
}
use pgcopydb_operator.Text.Lines.{split_lines, in_front}
use pgcopydb_operator.Text.Numbers.{decimal, format_int64}
use pgcopydb_operator.Text.RoundTrip.{
  AllDigits, decimal-AllDigits, decimal-ne-nil, parse_int64-format_int64,
}
use pgcopydb_operator.Progress.{
  Rows, no_rows, numbers_of, parse_fields, parse_stage, read_line, read_lines, sample_of,
  parse_sample,
}

-- One psql row: the figures with a space between two.
unfoldable pub row : List ℕ → Text
row [] = []
row (n ∷ []) = format_int64 n
row (n ∷ m ∷ ns) = format_int64 n ++ 32 ∷ row (m ∷ ns)

-- Figures of 64 bits.
abbrev pub AreWords : List ℕ → Type 0
AreWords [] = Unit {0}
AreWords (n ∷ ns) = (n < 18446744073709551616) × AreWords ns

module _ (p : ℕ → Bool) (no_digit : (c : ℕ) → b'-' ≤ c → c ≤ b'9' → p c ≡ false) where
  AllDigits-Free : (s : Text) → AllDigits s → Free p s
  AllDigits-Free [] a = tt
  AllDigits-Free (c ∷ s) (d, a) = (no_digit c (omega arith) d.1, AllDigits-Free s a)

  format_int64-Free : (n : ℕ) → Free p (format_int64 n)
  unfolding format_int64
  format_int64-Free n = elim (Bool-cases (ltb n 9223372036854775808)) [
    | inl q ↦ rw q (AllDigits-Free (decimal n) (decimal-AllDigits n))
    | inr q ↦ rw q (
      no_digit b'-' (omega arith) (omega arith),
      AllDigits-Free _ (decimal-AllDigits (18446744073709551616 - n)),
    )
  ]

  row-Free : p 32 ≡ false → (ns : List ℕ) → Free p (row ns)
  unfolding row
  row-Free e [] = tt
  row-Free e (n ∷ []) = format_int64-Free n
  row-Free e (n ∷ m ∷ ns) =
      Free-append p (format_int64 n) _ (format_int64-Free n) (e, row-Free e (m ∷ ns))

no_space : (c : ℕ) → b'-' ≤ c → c ≤ b'9' → is_space c ≡ false
unfolding is_space
no_space c l h = ground arith

no_newline : (c : ℕ) → b'-' ≤ c → c ≤ b'9' → (c == 10) ≡ false
no_newline c l h = ground arith

format_int64-ne-nil : (n : ℕ) → format_int64 n ≢ []
unfolding format_int64
format_int64-ne-nil n = elim (Bool-cases (ltb n 9223372036854775808)) [
  | inl q ↦ rw q (decimal-ne-nil n)
  | inr q ↦ rw q (cons-ne-nil b'-' _)
]

close-filled : (w : Text) (r : List Text) → w ≢ [] → close w r ≡ w ∷ r
close-filled [] r h = absurd (h refl)
close-filled (c ∷ w) r h = refl

fields-row : (ns : List ℕ) → fields (row ns) ≡ map format_int64 ns
unfolding fields row
fields-row [] = unfold fields_from in refl
fields-row (n ∷ []) =
    fields_from-last [] (format_int64 n) (format_int64-Free is_space no_space n)
    ∙ close-filled (format_int64 n) [] (format_int64-ne-nil n)
fields-row (n ∷ m ∷ ns) =
    fields_from-word [] (format_int64 n) 32 (row (m ∷ ns)) (format_int64-Free is_space no_space n)
      (unfold is_space in refl)
    ∙ close-filled (format_int64 n) _ (format_int64-ne-nil n)
    ∙ ap (λ r. format_int64 n ∷ r) (fields-row (m ∷ ns))

numbers_of-format : (ns : List ℕ) → AreWords ns → numbers_of (map format_int64 ns) ≡ some ns
unfolding numbers_of
numbers_of-format [] w = refl
numbers_of-format (n ∷ ns) (h, w) = rw (parse_int64-format_int64 n h, numbers_of-format ns w)

-- Every row of int64 figures, negative ones included, is read back.
parse_fields-row : (ns : List ℕ) → AreWords ns → parse_fields (row ns) ≡ ns
unfolding parse_fields
parse_fields-row ns w = rw (fields-row ns, numbers_of-format ns w)

split_lines-line :
    (l rest : Text) → Free (λ c. c == 10) l → split_lines (l ++ 10 ∷ rest) ≡ l ∷ split_lines rest
unfolding split_lines
split_lines-line [] rest f = refl
split_lines-line (c ∷ l) rest (e, f) =
    rw (e, split_lines) (ap (λ r. in_front r (c ∷ [])) (split_lines-line l rest f))

-- A text on one line.
abbrev pub OneLine : Text → Type 0
OneLine s = Free (λ c. c == 10) s

-- The script's output when no side failed.
unfoldable pub output : (stage owed : Text) → (src tgt sync_rep : List ℕ) → Text
output stage owed src tgt sync_rep =
    (codes "stage=" ++ stage)
    ++ 10
      ∷ ((codes "source=" ++ row src)
          ++ 10
            ∷ ((codes "target=" ++ row tgt)
                ++ 10
                  ∷ ((codes "owed=" ++ owed)
                      ++ 10 ∷ ((codes "syncrep=" ++ row sync_rep) ++ 10 ∷ []))))

labelled_line :
    (label s rest : Text)
    → free (λ c. c == 10) label ≡ true
    → OneLine s
    → split_lines ((label ++ s) ++ 10 ∷ rest) ≡ (label ++ s) ∷ split_lines rest
labelled_line label s rest e f =
    split_lines-line (label ++ s) rest
      (Free-append (λ c. c == 10) label s (free-Free (λ c. c == 10) label e) f)

row-OneLine : (ns : List ℕ) → OneLine (row ns)
row-OneLine ns = row-Free (λ c. c == 10) no_newline refl ns

split_lines-output :
    (stage owed : Text) (src tgt sync_rep : List ℕ)
    → OneLine stage
    → OneLine owed
    → split_lines (output stage owed src tgt sync_rep)
      ≡ (codes "stage=" ++ stage)
        ∷ (codes "source=" ++ row src)
        ∷ (codes "target=" ++ row tgt)
        ∷ (codes "owed=" ++ owed)
        ∷ (codes "syncrep=" ++ row sync_rep)
        ∷ []
        ∷ []
unfolding output
split_lines-output stage owed src tgt sync_rep g o =
    rw
      (
        labelled_line (codes "stage=") stage _ refl g,
        labelled_line (codes "source=") (row src) _ refl (row-OneLine src),
        labelled_line (codes "target=") (row tgt) _ refl (row-OneLine tgt),
        labelled_line (codes "owed=") owed _ refl o,
        labelled_line (codes "syncrep=") (row sync_rep) [] refl (row-OneLine sync_rep),
      )
      (unfold split_lines in refl)

-- The rows that the output spells.
abbrev rows_of : (stage owed : Text) → (src tgt sync_rep : List ℕ) → Rows
rows_of stage owed src tgt sync_rep = record no_rows {
  src = src;
  tgt = tgt;
  sync_rep = sync_rep;
  owed = trim_space owed;
  stage = parse_stage stage;
}

parse_sample-rows :
    (stage owed : Text) (src tgt sync_rep : List ℕ)
    → OneLine stage
    → OneLine owed
    → AreWords src
    → AreWords tgt
    → AreWords sync_rep
    → parse_sample (output stage owed src tgt sync_rep)
      ≡ sample_of (rows_of stage owed src tgt sync_rep)
unfolding parse_sample read_lines read_line cut_prefix cut
parse_sample-rows stage owed src tgt sync_rep g o s t w = rw (
  split_lines-output stage owed src tgt sync_rep g o,
  parse_fields-row src s,
  parse_fields-row tgt t,
  parse_fields-row sync_rep w,
)

module _ (stage owed : Text) (size tables filled indexes bytes owing : ℕ)
    (t_size t_tables t_filled t_indexes t_bytes : ℕ) (waiting oldest named : ℕ) where
  abbrev src : List ℕ
  src = size ∷ tables ∷ filled ∷ indexes ∷ bytes ∷ owing ∷ []

  abbrev tgt : List ℕ
  tgt = t_size ∷ t_tables ∷ t_filled ∷ t_indexes ∷ t_bytes ∷ []

  abbrev sync_rep : List ℕ
  sync_rep = waiting ∷ oldest ∷ named ∷ []

  -- Where all rows hold figures of 64 bits, the target holds a table, fewer than 2 ^ 63, and the stage
  -- and the owed tables stand on a line each, the sample of the script's output has both sizes, the
  -- source's totals, the tables that are not owed and the target's other counts as done, the SyncRep
  -- waits, the stage that its line shows, and nothing lost.
  pub parse_sample-output :
      OneLine stage
      → OneLine owed
      → AreWords src
      → AreWords tgt
      → AreWords sync_rep
      → 0 < t_tables
      → t_tables < 9223372036854775808
      → let s = parse_sample (output stage owed src tgt sync_rep) in
        (s.source_size ≡ some size)
        × (s.target_size ≡ some t_size)
        × (s.counts
            ≡ some (record {
              tables_total = tables;
              tables_done = sub64 tables owing;
              indexes_total = indexes;
              indexes_done = t_indexes;
              bytes_total = bytes;
              bytes_done = t_bytes;
              empty_on_target = trim_space owed;
            }))
        × (s.sync_rep
            ≡ some (record { waiting = waiting; oldest_seconds = oldest; pgcopydb_named = named }))
        × (s.copying ≡ (parse_stage stage).copying)
        × (s.finalizing ≡ (parse_stage stage).finalizing)
        × (s.lost (codes "source") ≡ none)
        × (s.lost (codes "target") ≡ none)
        × (s.lost (codes "syncrep") ≡ none)
  unfolding sample_of same
  parse_sample-output g o s t w pos small =
      rw (parse_sample-rows stage owed src tgt sync_rep g o s t w)
        (refl, refl, ground arith, refl, refl, refl, refl, refl, refl)
