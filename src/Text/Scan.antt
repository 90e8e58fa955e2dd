-- ===== src/Text/Scan.antt =====
-- What the parsers use of fmt.Sscanf: the verbs %d and %s, a space and a literal of the format. Each
-- reads a part of the text and gives the rest; `none` is its error.
use pgcopydb_operator.Prelude.{
  ℕ, true, false, ◌&&◌, ◌||◌, ◌==◌, leb, if◌then◌else◌, Option, none, some, [], ◌∷◌,
}
use pgcopydb_operator.Text.{Text, is_space, trim_left}
use pgcopydb_operator.Text.Numbers.{parse_int64}

-- The digits in front of a text, and the rest.
unfoldable pub span_digits : Text → Text × Text
span_digits [] = ([], [])
span_digits (c ∷ s) = elim (leb b'0' c && leb c b'9') [
  | false ↦ ([], c ∷ s)
  | true ↦ (c ∷ (span_digits s).0, (span_digits s).1)
]

abbrev pub signed_token : Text → Text × Text
signed_token [] = ([], [])
signed_token (c ∷ s) =
    if c == b'+' || c == b'-'
    then (c ∷ (span_digits s).0, (span_digits s).1)
    else span_digits (c ∷ s)

abbrev pub with_rest : Option ℕ → Text → Option (ℕ × Text)
with_rest none rest = none
with_rest (some v) rest = some (v, rest)

-- fmt.Sscanf's %d: spaces, a sign, digits.
unfoldable pub scan_int : Text → Option (ℕ × Text)
scan_int s = let token = signed_token (trim_left s) in with_rest (parse_int64 token.0) token.1

-- A space of the format: one space at least, or the end of the text.
unfoldable pub scan_space : Text → Option Text
scan_space [] = some []
scan_space (c ∷ s) = if is_space c then some (trim_left s) else none

infixl 5 ◌>>=◌
abbrev pub ◌>>=◌ {ℓ κ} : {A : Type ℓ} {B : Type κ} → Option A → (A → Option B) → Option B
none >>= f = none
some a >>= f = f a

-- The characters up to a space.
unfoldable pub span_word : Text → Text × Text
span_word [] = ([], [])
span_word (c ∷ s) = elim (is_space c) [
  | true ↦ ([], c ∷ s)
  | false ↦ (c ∷ (span_word s).0, (span_word s).1)
]

abbrev filled_word : Text × Text → Option (Text × Text)
filled_word ([], rest) = none
filled_word (c ∷ w, rest) = some (c ∷ w, rest)

-- %s: spaces, then a word that is not empty.
unfoldable pub scan_word : Text → Option (Text × Text)
scan_word s = filled_word (span_word (trim_left s))
