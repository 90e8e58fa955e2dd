-- ===== src/Progress/Withheld.antt =====
-- What a lost side may say: psql's client-side messages, which can echo a connection URI with its
-- password, never leave the parser.
use pgcopydb_operator.Prelude.{
  ◌≡◌, subst, Bool, true, false, ◌||◌, Bool-cases, inl, inr, Option, none, some, List, [], ◌∷◌,
  if◌then◌else◌,
}
use pgcopydb_operator.Text.{Text, codes, same, cut, has_prefix, trim_space}
use pgcopydb_operator.Text.Lines.{split_lines}
use pgcopydb_operator.Progress.{
  Rows, no_rows, withheld_reason, server_reason, read_error, read_as, read_line, read_lines,
  sample_of, parse_sample,
}

-- A reason that a server or the operator wrote, or none.
pub data IsShowable : Text → Type 0 where
  nothing : IsShowable []
  withheld : IsShowable withheld_reason
  by_server :
      (msg : Text)
      → (has_prefix (codes "ERROR:") msg
          || has_prefix (codes "FATAL:") msg
          || has_prefix (codes "psql: error: connection to server at ") msg)
        ≡ true
      → IsShowable msg

server_reason-IsShowable : (msg : Text) → IsShowable (server_reason msg)
unfolding server_reason
server_reason-IsShowable [] = nothing
server_reason-IsShowable (c ∷ msg) =
    elim (Bool-cases (
      has_prefix (codes "ERROR:") (c ∷ msg)
      || has_prefix (codes "FATAL:") (c ∷ msg)
      || has_prefix (codes "psql: error: connection to server at ") (c ∷ msg))) [
        | inl q ↦ rw q (by_server (c ∷ msg) q)
        | inr q ↦ rw q withheld
      ]

abbrev AllShowable : Rows → Type 0
AllShowable r = (side : Text) → IsShowable (r.reasons side)

read_error-AllShowable :
    (r : Rows) (o : Option (Text × Text)) → AllShowable r → AllShowable (read_error r o)
read_error-AllShowable r none a j = a j
read_error-AllShowable r (some (side, v)) a j = elim (Bool-cases (same side j)) [
  | inl q ↦ rw q (server_reason-IsShowable (trim_space v))
  | inr q ↦ rw q (a j)
]

read_as-AllShowable :
    (r : Rows) (line : Text) (src tgt owed stage sync_rep : Option Text)
    → AllShowable r
    → AllShowable (read_as r line src tgt owed stage sync_rep)
read_as-AllShowable r line (some v) tgt owed stage sync_rep a = a
read_as-AllShowable r line none (some v) owed stage sync_rep a = a
read_as-AllShowable r line none none (some v) stage sync_rep a = a
read_as-AllShowable r line none none none (some v) sync_rep a = a
read_as-AllShowable r line none none none none (some v) a = a
read_as-AllShowable r line none none none none none a =
    read_error-AllShowable r (cut (codes "_error=") line) a

read_lines-AllShowable : (r : Rows) (ls : List Text) → AllShowable r → AllShowable (read_lines r ls)
unfolding read_lines read_line
read_lines-AllShowable r [] a = a
read_lines-AllShowable r (l ∷ ls) a =
    read_lines-AllShowable (read_line r l) ls (read_as-AllShowable r l _ _ _ _ _ a)

lost_reason :
    (b : Bool) (reason shown : Text)
    → (if b then some reason else none) ≡ some shown
    → reason ≡ shown
lost_reason true reason shown h = cc
lost_reason false reason shown h = absurd (cc)

-- Whatever the script prints, the reason of a lost side is empty, the withheld text, or a message
-- that starts as a server's error or libpq's connection failure.
pub parse_sample-IsShowable :
    (out side reason : Text) → (parse_sample out).lost side ≡ some reason → IsShowable reason
unfolding parse_sample sample_of
parse_sample-IsShowable out side reason h =
    subst IsShowable (lost_reason _ _ reason h)
      (read_lines-AllShowable no_rows (split_lines out) (λ j. nothing) side)
