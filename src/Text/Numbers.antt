-- ===== src/Text/Numbers.antt =====
-- Numbers as texts: what strconv.ParseUint, strconv.ParseInt and fmt print and read. A digit loop
-- prints with as much fuel as its number, which is enough, since each round divides by the base.
use pgcopydb_operator.Prelude.{
  ℕ, zero, suc, ◌+◌, ◌-◌, ◌*◌, ◌/◌, ◌%◌, ◌==◌, ltb, leb, if◌then◌else◌, true, false, ◌&&◌, Option,
  none, some, [], ◌∷◌,
}
use pgcopydb_operator.Text.{Text}

-- The value of a hexadecimal digit.
unfoldable pub hex_value : ℕ → Option ℕ
hex_value c =
    if leb b'0' c && leb c b'9'
    then some (c - b'0')
    else if leb b'a' c && leb c b'f'
    then some (c - b'a' + 10)
    else if leb b'A' c && leb c b'F'
    then some (c - b'A' + 10)
    else none

-- The loop of strconv.ParseUint(s, 16, 32) behind the number read so far.
unfoldable pub scan_hex32 : Text → ℕ → Option ℕ
unfolding hex_value
scan_hex32 [] n = some n
scan_hex32 (c ∷ s) n = elim (hex_value c) [
  | none ↦ none
  | some d ↦ elim (ltb 4294967295 (n * 16 + d)) [ true ↦ none | false ↦ scan_hex32 s (n * 16 + d) ]
]

unfoldable pub parse_hex32 : Text → Option ℕ
unfolding scan_hex32
parse_hex32 [] = none
parse_hex32 (c ∷ s) = scan_hex32 (c ∷ s) 0

-- The loop of strconv.ParseUint(s, 10, 64), with the bound of the caller.
unfoldable pub scan_dec : ℕ → Text → ℕ → Option ℕ
scan_dec limit [] n = some n
scan_dec limit (c ∷ s) n = elim (leb b'0' c && leb c b'9') [
  | false ↦ none
  | true ↦ elim (ltb limit (n * 10 + (c - b'0'))) [
    | true ↦ none
    | false ↦ scan_dec limit s (n * 10 + (c - b'0'))
  ]
]

unfoldable pub parse_dec : ℕ → Text → Option ℕ
unfolding scan_dec
parse_dec limit [] = none
parse_dec limit (c ∷ s) = scan_dec limit (c ∷ s) 0

-- -n as an int64
abbrev pub negate64 : ℕ → ℕ
negate64 n = (18446744073709551616 - n) % 18446744073709551616

abbrev pub negated : Option ℕ → Option ℕ
negated none = none
negated (some n) = some (negate64 n)

-- strconv.ParseInt(s, 10, 64): a sign, then digits; the value is an int64's bit pattern.
unfoldable pub parse_int64 : Text → Option ℕ
unfolding parse_dec
parse_int64 [] = none
parse_int64 (c ∷ s) =
    if c == b'+'
    then parse_dec 9223372036854775807 s
    else if c == b'-'
    then negated (parse_dec 9223372036854775808 s)
    else parse_dec 9223372036854775807 (c ∷ s)

-- strconv.FormatUint(n, 10): digits in front of what stands, least first.
unfoldable pub decimal_from : ℕ → ℕ → Text → Text
decimal_from zero n out = (b'0' + n % 10) ∷ out
decimal_from (suc f) n out = elim (ltb n 10) [
  | true ↦ (b'0' + n) ∷ out
  | false ↦ decimal_from f (n / 10) ((b'0' + n % 10) ∷ out)
]

unfoldable pub decimal : ℕ → Text
unfolding decimal_from
decimal n = decimal_from n n []

-- fmt's %d of an int64's bit pattern.
unfoldable pub format_int64 : ℕ → Text
unfolding decimal
format_int64 n =
    if ltb n 9223372036854775808 then decimal n else b'-' ∷ decimal (18446744073709551616 - n)

-- The digit that %x (the letters from `a`) or %X (from `A`) prints.
unfoldable pub hex_digit : (letter_a : ℕ) → ℕ → ℕ
hex_digit letter_a d = if ltb d 10 then b'0' + d else letter_a + (d - 10)

unfoldable pub hex_from : ℕ → ℕ → ℕ → Text → Text
unfolding hex_digit
hex_from letter_a zero n out = hex_digit letter_a (n % 16) ∷ out
hex_from letter_a (suc f) n out = elim (ltb n 16) [
  | true ↦ hex_digit letter_a n ∷ out
  | false ↦ hex_from letter_a f (n / 16) (hex_digit letter_a (n % 16) ∷ out)
]

unfoldable pub hex : ℕ → ℕ → Text
unfolding hex_from
hex letter_a n = hex_from letter_a n n []
