-- ===== src/Text/RoundTrip.antt =====
-- What is printed is read back: hexadecimal words and decimal numbers.
use pgcopydb_operator.Prelude.{
  ℕ, zero, suc, ◌+◌, ◌-◌, ◌*◌, ◌/◌, ◌%◌, ◌<◌, ◌≤◌, ltb, true, false, Option, none, some, [], ◌∷◌,
  ◌≡◌, ◌≢◌, refl, ◌∙◌, arith, Bool-cases, inl, inr,
}
use mathlib.Core.List.{cons-ne-nil}
use pgcopydb_operator.Text.{Text}
use pgcopydb_operator.Text.Numbers.{
  hex_value, scan_hex32, parse_hex32, hex_digit, hex_from, hex, scan_dec, parse_dec, decimal_from,
  decimal, negated, parse_int64, format_int64,
}

hex_value-hex_digit : (d : ℕ) → d < 16 → hex_value (hex_digit b'A' d) ≡ some d
unfolding hex_value hex_digit
hex_value-hex_digit d h = ground arith

scan_hex32-digit :
    (d n : ℕ) (out : Text)
    → d < 16
    → n * 16 + d ≤ 4294967295
    → scan_hex32 (hex_digit b'A' d ∷ out) n ≡ scan_hex32 out (n * 16 + d)
unfolding scan_hex32
scan_hex32-digit d n out h fits = ground (arith, hex_value-hex_digit d h)

scan_hex32-hex_from :
    (f n : ℕ) (out : Text)
    → n ≤ f
    → n ≤ 4294967295
    → scan_hex32 (hex_from b'A' f n out) 0 ≡ scan_hex32 out n
unfolding hex_from
scan_hex32-hex_from zero n out h fits = ground (arith, scan_hex32-digit (n % 16) 0 out)
scan_hex32-hex_from (suc f) n out h fits = ground (
  arith,
  scan_hex32-digit n 0 out,
  scan_hex32-hex_from f (n / 16) (hex_digit b'A' (n % 16) ∷ out),
  scan_hex32-digit (n % 16) (n / 16) out,
)

hex_from-ne-nil : (a f n : ℕ) (out : Text) → hex_from a f n out ≢ []
unfolding hex_from
hex_from-ne-nil a zero n out = cons-ne-nil _ out
hex_from-ne-nil a (suc f) n out =
    ground (arith, hex_from-ne-nil a f (n / 16) (hex_digit a (n % 16) ∷ out))

parse_hex32-scan : (s : Text) → s ≢ [] → parse_hex32 s ≡ scan_hex32 s 0
unfolding parse_hex32
parse_hex32-scan [] h = absurd (h refl)
parse_hex32-scan (c ∷ s) h = refl

-- Every word of 32 bits is read back from its hexadecimal print.
pub parse_hex32-hex : (n : ℕ) → n ≤ 4294967295 → parse_hex32 (hex b'A' n) ≡ some n
unfolding hex
parse_hex32-hex n h =
    rw (parse_hex32-scan _ (hex_from-ne-nil b'A' n n []))
      (rw (scan_hex32-hex_from n n [] (omega arith) h) (unfold scan_hex32 in refl))

-- One round of the loop keeps the bound, if the rest does.
scan_hex32_step :
    (c : ℕ) (s : Text) (n r : ℕ)
    → ((d : ℕ) → n * 16 + d ≤ 4294967295 → scan_hex32 s (n * 16 + d) ≡ some r → r ≤ 4294967295)
    → (o : Option ℕ)
    → (elim o as (λ _. Option ℕ) [
      | none ↦ none
      | some d ↦ elim (ltb 4294967295 (n * 16 + d)) [
        | true ↦ none
        | false ↦ scan_hex32 s (n * 16 + d)
      ]
    ])
      ≡ some r
    → r ≤ 4294967295
scan_hex32_step c s n r rest none h = absurd (cc)
scan_hex32_step c s n r rest (some d) h = ground (arith, rest d)

scan_hex32_bound : (s : Text) (n r : ℕ) → n ≤ 4294967295 → scan_hex32 s n ≡ some r → r ≤ 4294967295
unfolding scan_hex32
scan_hex32_bound [] n r b h = ground arith
scan_hex32_bound (c ∷ s) n r b h =
    scan_hex32_step c s n r (λ d. scan_hex32_bound s (n * 16 + d) r) (hex_value c) h

pub parse_hex32_bound : (s : Text) {r : ℕ} → parse_hex32 s ≡ some r → r ≤ 4294967295
unfolding parse_hex32
parse_hex32_bound [] h = cc
parse_hex32_bound (c ∷ s) h = scan_hex32_bound (c ∷ s) 0 _ (omega arith) h

scan_dec-digit :
    (limit d n : ℕ) (out : Text)
    → d < 10
    → n * 10 + d ≤ limit
    → scan_dec limit ((b'0' + d) ∷ out) n ≡ scan_dec limit out (n * 10 + d)
unfolding scan_dec
scan_dec-digit limit d n out h fits = ground arith

scan_dec-decimal_from :
    (limit f n : ℕ) (out : Text)
    → n ≤ f
    → n ≤ limit
    → scan_dec limit (decimal_from f n out) 0 ≡ scan_dec limit out n
unfolding decimal_from
scan_dec-decimal_from limit zero n out h fits = ground (arith, scan_dec-digit limit (n % 10) 0 out)
scan_dec-decimal_from limit (suc f) n out h fits = ground (
  arith,
  scan_dec-digit limit n 0 out,
  scan_dec-decimal_from limit f (n / 10) ((b'0' + n % 10) ∷ out),
  scan_dec-digit limit (n % 10) (n / 10) out,
)

decimal_from-ne-nil : (f n : ℕ) (out : Text) → decimal_from f n out ≢ []
unfolding decimal_from
decimal_from-ne-nil zero n out = cons-ne-nil _ out
decimal_from-ne-nil (suc f) n out =
    ground (arith, decimal_from-ne-nil f (n / 10) ((b'0' + n % 10) ∷ out))

parse_dec-scan : (limit : ℕ) (s : Text) → s ≢ [] → parse_dec limit s ≡ scan_dec limit s 0
unfolding parse_dec
parse_dec-scan limit [] h = absurd (h refl)
parse_dec-scan limit (c ∷ s) h = refl

pub parse_dec-decimal : (limit n : ℕ) → n ≤ limit → parse_dec limit (decimal n) ≡ some n
unfolding decimal
parse_dec-decimal limit n h =
    rw (parse_dec-scan limit _ (decimal_from-ne-nil n n []))
      (scan_dec-decimal_from limit n n [] (omega arith) h ∙ unfold scan_dec in refl)

-- A text of digits alone.
abbrev pub AllDigits : Text → Type 0
AllDigits [] = Unit
AllDigits (c ∷ s) = ((b'0' ≤ c) × (c ≤ b'9')) × AllDigits s

decimal_from-AllDigits :
    (f n : ℕ) (out : Text) → n ≤ f → AllDigits out → AllDigits (decimal_from f n out)
unfolding decimal_from
decimal_from-AllDigits zero n out h a = (omega arith, a)
decimal_from-AllDigits (suc f) n out h a = elim (Bool-cases (ltb n 10)) [
  | inl q ↦ rw (q, decimal_from) (ground arith, a)
  | inr q ↦
      rw (q, decimal_from)
        (decimal_from-AllDigits f (n / 10) ((b'0' + n % 10) ∷ out) (ground arith) (omega arith, a))
]

pub decimal-AllDigits : (n : ℕ) → AllDigits (decimal n)
unfolding decimal
decimal-AllDigits n = decimal_from-AllDigits n n [] (omega arith) tt

parse_int64-digits :
    (s : Text) → s ≢ [] → AllDigits s → parse_int64 s ≡ parse_dec 9223372036854775807 s
unfolding parse_int64
parse_int64-digits [] h a = absurd (h refl)
parse_int64-digits (c ∷ s) h (d, a) = ground arith

pub decimal-ne-nil : (n : ℕ) → decimal n ≢ []
unfolding decimal
decimal-ne-nil n = decimal_from-ne-nil n n []

parse_int64-minus : (s : Text) → parse_int64 (b'-' ∷ s) ≡ negated (parse_dec 9223372036854775808 s)
unfolding parse_int64
parse_int64-minus s = refl

-- Every int64, negative ones included, is read back from its decimal print.
pub parse_int64-format_int64 :
    (n : ℕ) → n < 18446744073709551616 → parse_int64 (format_int64 n) ≡ some n
unfolding format_int64
parse_int64-format_int64 n h = elim (Bool-cases (ltb n 9223372036854775808)) [
  | inl q ↦ rw q (
      parse_int64-digits _ (decimal-ne-nil n) (decimal-AllDigits n)
      ∙ parse_dec-decimal _ n (ground arith))
  | inr q ↦ rw q (
      parse_int64-minus _
      ∙ rw (parse_dec-decimal 9223372036854775808 (18446744073709551616 - n) (ground arith))
          (ground arith))
]
