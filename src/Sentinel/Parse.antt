-- ===== src/Sentinel/Parse.antt =====
-- The parsers of internal/sentinel/sentinel.go: ParseLSN and parseSample.
pub mod Report
use pgcopydb_operator.Prelude.{
  ℕ, ◌+◌, ◌*◌, Bool, true, false, if◌then◌else◌, List, [], ◌∷◌, Option, none, some,
}
use pgcopydb_operator.Text.{Text, codes, same, cut, trim_space, fields}
use pgcopydb_operator.Text.Numbers.{parse_hex32}

-- h<<32 | l of two words: the halves do not overlap.
abbrev joined : Option ℕ → Option ℕ → Option ℕ
joined none l = none
joined (some h) none = none
joined (some h) (some l) = some (h * 4294967296 + l)

abbrev halves : Option (Text × Text) → Option ℕ
halves none = none
halves (some (hi, lo)) = joined (parse_hex32 hi) (parse_hex32 lo)

-- ParseLSN
unfoldable pub parse_lsn_text : Text → Option ℕ
unfolding cut trim_space parse_hex32
parse_lsn_text s = halves (cut (codes "/") (trim_space s))

-- State: the texts of one sample.
pub record State : Type 0 where
  pub write_lsn : Text
  pub replay_lsn : Text
  pub endpos : Text
  pub source_head : Text

-- The map of the labelled values; a missing key reads as the empty text.
abbrev pub Values : Type 0
Values = Text → Text

abbrev kept : Values → Text → Text → Option ℕ → Values
kept vals k v none = vals
kept vals k v (some n) = λ j. if same k j then v else vals j

abbrev labelled : Values → Option (Text × Text) → Values
labelled vals none = vals
labelled vals (some (k, v)) = kept vals k v (parse_lsn_text v)

-- The loop of parseSample.
unfoldable pub read_fields : Values → List Text → Values
read_fields vals [] = vals
read_fields vals (f ∷ fs) = read_fields (labelled vals (cut (codes "=") f)) fs

abbrev sample_of : Values → Option State
sample_of vals =
    if same (vals (codes "write_lsn")) []
    then none
    else some (record {
      write_lsn = vals (codes "write_lsn");
      replay_lsn = vals (codes "replay_lsn");
      endpos = [];
      source_head = vals (codes "source_head");
    })

-- parseSample
unfoldable pub parse_sample : Text → Option State
parse_sample out = sample_of (read_fields (λ k. []) (fields out))
