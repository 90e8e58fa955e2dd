-- ===== src/Text/Lines.antt =====
-- Splitting a text at its newlines: strings.Split with "\n", and strings.Lines, whose lines keep
-- their newline and which has no line behind the last one.
use pgcopydb_operator.Prelude.{◌==◌, true, false, List, [], ◌∷◌, ◌++◌}
use pgcopydb_operator.Text.{Text}

-- The first line gets a character in front.
abbrev pub in_front : List Text → Text → List Text
in_front [] front = front ∷ []
in_front (l ∷ ls) front = (front ++ l) ∷ ls

-- strings.SplitSeq(s, "\n")
unfoldable pub split_lines : Text → List Text
split_lines [] = [] ∷ []
split_lines (c ∷ s) = elim (c == 10) [
  | true ↦ [] ∷ split_lines s
  | false ↦ in_front (split_lines s) (c ∷ [])
]

-- strings.Lines
unfoldable pub lines : Text → List Text
lines [] = []
lines (c ∷ s) = elim (c == 10) [ true ↦ (c ∷ []) ∷ lines s | false ↦ in_front (lines s) (c ∷ []) ]
