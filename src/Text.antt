-- ===== src/Text.antt =====
-- The texts that the operator parses and renders, and what it uses of Go's `strings` and `unicode`
-- on them. A text is the list of its code points; command output and logs are taken as valid UTF-8,
-- where prefixes, substrings and cuts agree with those of the bytes.
pub mod Numbers
pub mod Lines
pub mod Laws
pub mod Scan
pub mod RoundTrip
use Prim.Native.Char.{code}
use Prim.Native.String.{String}
use pgcopydb_operator.Prelude.{
  ℕ, ◌==◌, leb, if◌then◌else◌, is_some, Bool, true, false, not, ◌&&◌, ◌||◌, List, [], ◌∷◌, ◌++◌,
  Option, none, some,
}

abbrev pub Text : Type 0
Text = List ℕ

abbrev pub codes : String → Text
codes String.[] = []
codes (String.◌∷◌ c s) = code c ∷ codes s

-- unicode.IsSpace
unfoldable pub is_space : ℕ → Bool
is_space c =
    c == 0x20
    || (leb 9 c && leb c 13)
    || c == 0x85
    || c == 0xa0
    || c == 0x1680
    || (leb 0x2000 c && leb c 0x200a)
    || c == 0x2028
    || c == 0x2029
    || c == 0x202f
    || c == 0x205f
    || c == 0x3000

-- s == t
unfoldable pub same : Text → Text → Bool
same [] [] = true
same [] (d ∷ t) = false
same (c ∷ s) [] = false
same (c ∷ s) (d ∷ t) = c == d && same s t

-- strings.CutPrefix, the prefix first; `none` is its `false`
unfoldable pub cut_prefix : Text → Text → Option Text
cut_prefix [] s = some s
cut_prefix (p ∷ ps) [] = none
cut_prefix (p ∷ ps) (c ∷ s) = if p == c then cut_prefix ps s else none

unfoldable pub has_prefix : Text → Text → Bool
unfolding cut_prefix
has_prefix p s = is_some (cut_prefix p s)

-- strings.Contains, the substring first
unfoldable pub contains : Text → Text → Bool
unfolding has_prefix
contains p [] = has_prefix p []
contains p (c ∷ s) = has_prefix p (c ∷ s) || contains p s

-- strings.HasSuffix, the suffix first
unfoldable pub has_suffix : Text → Text → Bool
unfolding same
has_suffix p [] = same p []
has_suffix p (c ∷ s) = same p (c ∷ s) || has_suffix p s

-- What stands behind the first separator, with the text before it.
abbrev pub behind : ℕ → Option (Text × Text) → Option (Text × Text)
behind c none = none
behind c (some (before, after)) = some (c ∷ before, after)

-- strings.Cut, the separator first; `none` is its `false`
unfoldable pub cut : Text → Text → Option (Text × Text)
unfolding cut_prefix
cut sep [] = elim (cut_prefix sep []) [ some rest ↦ some ([], rest) | none ↦ none ]
cut sep (c ∷ s) = elim (cut_prefix sep (c ∷ s)) [
  | some rest ↦ some ([], rest)
  | none ↦ behind c (cut sep s)
]

unfoldable pub trim_left : Text → Text
unfolding is_space
trim_left [] = []
trim_left (c ∷ s) = elim (is_space c) [ true ↦ trim_left s | false ↦ c ∷ s ]

-- The text without its last spaces: a space stays where something else follows.
abbrev pub keep : ℕ → Bool → Text → Text
keep c true [] = []
keep c true (d ∷ s) = c ∷ d ∷ s
keep c false s = c ∷ s

unfoldable pub trim_right : Text → Text
unfolding is_space
trim_right [] = []
trim_right (c ∷ s) = keep c (is_space c) (trim_right s)

-- strings.TrimSpace
unfoldable pub trim_space : Text → Text
unfolding trim_left trim_right
trim_space s = trim_right (trim_left s)

abbrev pub close : Text → List Text → List Text
close [] rest = rest
close (c ∷ s) rest = (c ∷ s) ∷ rest

-- strings.Fields: the parts between runs of spaces, with the part read so far.
unfoldable pub fields_from : Text → Text → List Text
unfolding is_space
fields_from part [] = close part []
fields_from part (c ∷ s) = elim (is_space c) [
  | true ↦ close part (fields_from [] s)
  | false ↦ fields_from (part ++ c ∷ []) s
]

unfoldable pub fields : Text → List Text
unfolding fields_from
fields s = fields_from [] s
