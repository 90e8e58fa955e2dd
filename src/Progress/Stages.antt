-- ===== src/Progress/Stages.antt =====
-- The clone stage that the counts of pgcopydb's backends show.
use mathlib.Core.List.{append-ne-nil_of_right_ne-nil, cons-ne-nil, append-nil}
use pgcopydb_operator.Prelude.{
  ℕ, ◌<◌, ◌≤◌, ◌≡◌, ◌≢◌, ◌↔◌, ◌⊎◌, refl, sym, ◌∙◌, ap, arith, Bool, true, false, ◌&&◌, ◌||◌, leb,
  ◌==◌, some, [], ◌∷◌, ◌++◌,
}
use pgcopydb_operator.Text.{Text, is_space, trim_space, trim_left, trim_right, keep}
use pgcopydb_operator.Text.Laws.{Free, trim_right-Free}
use pgcopydb_operator.Text.Numbers.{decimal, format_int64, parse_int64}
use pgcopydb_operator.Text.RoundTrip.{
  AllDigits, decimal-AllDigits, decimal-ne-nil, parse_int64-format_int64,
}
use pgcopydb_operator.Text.Scan.{span_digits, signed_token, scan_int, scan_space}
use pgcopydb_operator.Progress.{scan_three, parse_stage}

digit_test : (c : ℕ) → b'0' ≤ c → c ≤ b'9' → (leb b'0' c && leb c b'9') ≡ true
digit_test c l u = ground arith

span_digits-all :
    (s rest : Text)
    → AllDigits s
    → span_digits rest ≡ ([], rest)
    → span_digits (s ++ rest) ≡ (s, rest)
unfolding span_digits
span_digits-all [] rest a h = h
span_digits-all (c ∷ s) rest ((l, u), a) h =
    rw (digit_test c l u, span_digits) (rw (span_digits-all s rest a h))

is_space-digit : (c : ℕ) → b'0' ≤ c → c ≤ b'9' → is_space c ≡ false
unfolding is_space
is_space-digit c l u = ground arith

trim_left-digits : (s rest : Text) → s ≢ [] → AllDigits s → trim_left (s ++ rest) ≡ s ++ rest
unfolding trim_left
trim_left-digits [] rest n a = absurd (n refl)
trim_left-digits (c ∷ s) rest n ((l, u), a) = rw (is_space-digit c l u, trim_left)

unsigned_digit : (c : ℕ) → b'0' ≤ c → (c == b'+' || c == b'-') ≡ false
unsigned_digit c l = ground arith

signed_token-digits :
    (s rest : Text) → s ≢ [] → AllDigits s → signed_token (s ++ rest) ≡ span_digits (s ++ rest)
signed_token-digits [] rest n a = absurd (n refl)
signed_token-digits (c ∷ s) rest n ((l, u), a) = rw (unsigned_digit c l)

parse_int64-decimal : (n : ℕ) → n < 9223372036854775808 → parse_int64 (decimal n) ≡ some n
unfolding format_int64
parse_int64-decimal n h = ground (arith, parse_int64-format_int64 n)

scan_int-decimal :
    (n : ℕ) (rest : Text)
    → n < 9223372036854775808
    → span_digits rest ≡ ([], rest)
    → scan_int (decimal n ++ rest) ≡ some (n, rest)
unfolding scan_int
scan_int-decimal n rest h stop =
    let d : AllDigits (decimal n) = decimal-AllDigits n in
    let f : decimal n ≢ [] = decimal-ne-nil n in
    rw (trim_left-digits (decimal n) rest f d) (
      rw (
        signed_token-digits (decimal n) rest f d ∙ span_digits-all (decimal n) rest d stop,
        parse_int64-decimal n h,
      ))

scan_space-decimal :
    (n : ℕ) (rest : Text) → scan_space (32 ∷ (decimal n ++ rest)) ≡ some (decimal n ++ rest)
unfolding scan_space is_space
scan_space-decimal n rest =
    rw (trim_left-digits (decimal n) rest (decimal-ne-nil n) (decimal-AllDigits n))

-- The stage line as PostgreSQL prints it.
unfoldable pub stage_line : (copy other workers : ℕ) → Text
stage_line copy other workers = decimal copy ++ 32 ∷ (decimal other ++ 32 ∷ decimal workers)

AllDigits-no_space : (s : Text) → AllDigits s → Free is_space s
AllDigits-no_space [] a = tt
AllDigits-no_space (c ∷ s) ((l, u), a) = (is_space-digit c l u, AllDigits-no_space s a)

keep-filled : (c : ℕ) (b : Bool) (s : Text) → s ≢ [] → keep c b s ≡ c ∷ s
keep-filled c true [] n = absurd (n refl)
keep-filled c true (d ∷ s) n = refl
keep-filled c false s n = refl

trim_right-behind : (s t : Text) → t ≢ [] → trim_right t ≡ t → trim_right (s ++ t) ≡ s ++ t
unfolding trim_right
trim_right-behind [] t n e = e
trim_right-behind (c ∷ s) t n e =
    rw (trim_right-behind s t n e)
      (keep-filled c (is_space c) (s ++ t) (append-ne-nil_of_right_ne-nil s n))

trim_space-stage_line :
    (copy other workers : ℕ)
    → trim_space (stage_line copy other workers) ≡ stage_line copy other workers
unfolding trim_space stage_line
trim_space-stage_line copy other workers =
    let last : trim_right (decimal workers) ≡ decimal workers =
      trim_right-Free (decimal workers) (AllDigits-no_space _ (decimal-AllDigits workers)) in
    ap trim_right (
      trim_left-digits (decimal copy) (32 ∷ (decimal other ++ 32 ∷ decimal workers))
        (decimal-ne-nil copy) (decimal-AllDigits copy))
    ∙ trim_right-behind (decimal copy) _ (cons-ne-nil 32 _) (
        trim_right-behind (32 ∷ []) _
          (append-ne-nil_of_right_ne-nil (decimal other) (cons-ne-nil 32 (decimal workers)))
          (trim_right-behind (decimal other) _ (cons-ne-nil 32 _)
            (trim_right-behind (32 ∷ []) _ (decimal-ne-nil workers) last)))

scan_space-last : (n : ℕ) → scan_space (32 ∷ decimal n) ≡ some (decimal n)
scan_space-last n =
    ap (λ s. scan_space (32 ∷ s)) (sym (append-nil (decimal n)))
    ∙ scan_space-decimal n []
    ∙ ap some (append-nil (decimal n))

scan_int-last : (n : ℕ) → n < 9223372036854775808 → scan_int (decimal n) ≡ some (n, [])
unfolding span_digits
scan_int-last n h = ap scan_int (sym (append-nil (decimal n))) ∙ scan_int-decimal n [] h refl

scan_three-stage_line :
    (copy other workers : ℕ)
    → copy < 9223372036854775808
    → other < 9223372036854775808
    → workers < 9223372036854775808
    → scan_three (stage_line copy other workers) ≡ some (copy, other, workers)
unfolding scan_three stage_line span_digits
scan_three-stage_line copy other workers c o w =
    rw
      (
        scan_int-decimal copy (32 ∷ (decimal other ++ 32 ∷ decimal workers)) c refl,
        scan_space-decimal other (32 ∷ decimal workers),
        scan_int-decimal other (32 ∷ decimal workers) o refl,
      )
      (rw (scan_space-last workers, scan_int-last workers w))

-- Three counts below 2 ^ 63 show a copy exactly while a copy worker is left, the tail exactly while
-- no copy worker is left and another backend is active, and a started copy exactly while a copy,
-- index or vacuum worker is connected.
pub parse_stage-stage_line :
    (copy other workers : ℕ)
    → copy < 9223372036854775808
    → other < 9223372036854775808
    → workers < 9223372036854775808
    → let s = parse_stage (stage_line copy other workers) in
      ((s.copying ≡ true) ↔ (0 < copy))
      × ((s.finalizing ≡ true) ↔ ((copy ≡ 0) × (0 < other)))
      × ((s.started ≡ true) ↔ ((0 < copy) ⊎ (0 < workers)))
unfolding parse_stage
parse_stage-stage_line copy other workers c o w =
    rw (trim_space-stage_line copy other workers, scan_three-stage_line copy other workers c o w)
      (
        (λ h. ground arith, λ h. ground arith),
        (λ h. ground arith, λ h. ground arith),
        (λ h. ground arith, λ h. ground arith),
      )
