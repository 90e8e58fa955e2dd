-- ===== src/Sentinel/Parse/Report.antt =====
-- What PostgreSQL prints is what the parsers read.
use pgcopydb_operator.Prelude.{
  ℕ, zero, suc, ◌/◌, ◌%◌, ◌<◌, ◌≤◌, ◌≡◌, refl, ◌∙◌, ap, ltb, ◌==◌, Bool, true, false, Bool-cases,
  inl, inr, if◌then◌else◌, List, [], ◌∷◌, ◌++◌, some, arith,
}
use pgcopydb_operator.Sentinel.Parse.{Values, parse_lsn_text, parse_sample, read_fields}
use pgcopydb_operator.Text.{Text, codes, same, is_space, fields, fields_from}
use pgcopydb_operator.Text.Numbers.{hex, hex_from, hex_digit}
use pgcopydb_operator.Text.Laws.{
  Free, free-Free, Free-append, cut-first, trim_space-Free, fields_from-word,
}
use pgcopydb_operator.Text.RoundTrip.{parse_hex32-hex}

-- pg_lsn_out's "%X/%X" of a position's two halves.
unfoldable pub print_lsn : ℕ → Text
unfolding hex
print_lsn n = hex b'A' (n / 4294967296) ++ b'/' ∷ hex b'A' (n % 4294967296)

-- A hexadecimal print holds only digits and letters.
module _ (p : ℕ → Bool) (digit_free : (d : ℕ) → d < 16 → p (hex_digit b'A' d) ≡ false) where
  hex_from-Free : (f n : ℕ) (out : Text) → n ≤ f → Free p out → Free p (hex_from b'A' f n out)
  unfolding hex_from
  hex_from-Free zero n out h a = (digit_free (n % 16) (omega arith), a)
  hex_from-Free (suc f) n out h a = elim (Bool-cases (ltb n 16)) [
    | inl q ↦ rw (q, hex_from) (digit_free n (ground arith), a)
    | inr q ↦
        rw (q, hex_from)
          (hex_from-Free f (n / 16) (hex_digit b'A' (n % 16) ∷ out) (ground arith)
            (digit_free (n % 16) (omega arith), a))
  ]

  hex-Free : (n : ℕ) → Free p (hex b'A' n)
  unfolding hex
  hex-Free n = hex_from-Free n n [] (omega arith) tt

hex_digit-no_slash : (d : ℕ) → d < 16 → (b'/' == hex_digit b'A' d) ≡ false
unfolding hex_digit
hex_digit-no_slash d h = ground arith

hex_digit-no_space : (d : ℕ) → d < 16 → is_space (hex_digit b'A' d) ≡ false
unfolding hex_digit is_space
hex_digit-no_space d h = ground arith

print_lsn-Free : (n : ℕ) → Free is_space (print_lsn n)
unfolding print_lsn
print_lsn-Free n =
    Free-append is_space (hex b'A' (n / 4294967296)) _
      (hex-Free is_space hex_digit-no_space (n / 4294967296))
      (unfold is_space in refl, hex-Free is_space hex_digit-no_space (n % 4294967296))

-- Every position of 64 bits is read back from PostgreSQL's print.
pub parse_lsn_text-print :
    (n : ℕ) → n < 18446744073709551616 → parse_lsn_text (print_lsn n) ≡ some n
unfolding parse_lsn_text print_lsn
parse_lsn_text-print n h =
    rw
      (
        trim_space-Free (print_lsn n) (print_lsn-Free n),
        cut-first b'/' (hex b'A' (n / 4294967296)) (hex b'A' (n % 4294967296))
            (hex-Free (λ c. b'/' == c) hex_digit-no_slash (n / 4294967296)),
        parse_hex32-hex (n / 4294967296) (omega arith),
        parse_hex32-hex (n % 4294967296) (omega arith),
      )
      (ground arith)

same-nil : (s t : Text) (c : ℕ) → same (s ++ c ∷ t) [] ≡ false
unfolding same
same-nil [] t c = refl
same-nil (d ∷ s) t c = refl

print_lsn-same_nil : (n : ℕ) → same (print_lsn n) [] ≡ false
unfolding print_lsn
print_lsn-same_nil n = same-nil (hex b'A' (n / 4294967296)) _ b'/'

-- A word, the space or newline behind it, and what follows.
abbrev word : Text → ℕ → Text → Text
word w c t = w ++ c ∷ t

abbrev source_head : ℕ → Text
source_head n = codes "source_head=" ++ print_lsn n

abbrev write_lsn : ℕ → Text
write_lsn n = codes "write_lsn=" ++ print_lsn n

abbrev replay_lsn : ℕ → Text
replay_lsn n = codes "replay_lsn=" ++ print_lsn n

-- What psql prints of a slot: three labelled positions on two lines.
unfoldable pub slot_report : (head write replay : ℕ) → Text
slot_report head write replay =
    word (source_head head) 10 (word (write_lsn write) 32 (word (replay_lsn replay) 10 []))

label-Free : (label : Text) (n : ℕ) → Free is_space label → Free is_space (label ++ print_lsn n)
label-Free label n f = Free-append is_space label _ f (print_lsn-Free n)

fields_from-label :
    (label : Text) (l n c : ℕ) (t : Text)
    → Free is_space (l ∷ label)
    → is_space c ≡ true
    → fields_from [] (word ((l ∷ label) ++ print_lsn n) c t)
      ≡ ((l ∷ label) ++ print_lsn n) ∷ fields_from [] t
fields_from-label label l n c t f e =
    fields_from-word [] ((l ∷ label) ++ print_lsn n) c t (label-Free (l ∷ label) n f) e

fields-slot_report :
    (head write replay : ℕ)
    → fields (slot_report head write replay)
      ≡ source_head head ∷ write_lsn write ∷ replay_lsn replay ∷ []
unfolding fields slot_report is_space
fields-slot_report head write replay =
    fields_from-label (codes "ource_head=") b's' head 10 _
      (free-Free is_space (codes "source_head=") refl) refl
    ∙ ap (λ r. source_head head ∷ r)
        (fields_from-label (codes "rite_lsn=") b'w' write 32 _
            (free-Free is_space (codes "write_lsn=") refl) refl
          ∙ ap (λ r. write_lsn write ∷ r)
              (fields_from-label (codes "eplay_lsn=") b'r' replay 10 []
                  (free-Free is_space (codes "replay_lsn=") refl) refl
                ∙ unfold fields_from in refl))

-- A labelled position enters the map of the values.
read_label :
    (label : Text) (n : ℕ) (vals : Values) (fs : List Text)
    → Free (λ c. b'=' == c) label
    → n < 18446744073709551616
    → read_fields vals ((label ++ b'=' ∷ print_lsn n) ∷ fs)
      ≡ read_fields (λ j. if same label j then print_lsn n else vals j) fs
unfolding read_fields
read_label label n vals fs f h = rw (cut-first b'=' label (print_lsn n) f, parse_lsn_text-print n h)

abbrev read_of : (head write replay : ℕ) → Values
read_of head write replay j =
    if same (codes "replay_lsn") j
    then print_lsn replay
    else if same (codes "write_lsn") j
    then print_lsn write
    else if same (codes "source_head") j
    then print_lsn head
    else []

read_fields-slot_report :
    (head write replay : ℕ)
    → head < 18446744073709551616
    → write < 18446744073709551616
    → replay < 18446744073709551616
    → read_fields (λ k. []) (source_head head ∷ write_lsn write ∷ replay_lsn replay ∷ [])
      ≡ read_of head write replay
read_fields-slot_report head write replay h w r =
    read_label (codes "source_head") head _ _
      (free-Free (λ c. b'=' == c) (codes "source_head") refl) h
    ∙ read_label (codes "write_lsn") write _ _ (free-Free (λ c. b'=' == c) (codes "write_lsn") refl)
        w
    ∙ read_label (codes "replay_lsn") replay _ []
        (free-Free (λ c. b'=' == c) (codes "replay_lsn") refl) r
    ∙ unfold read_fields in refl

-- With positions of 64 bits, what psql prints of a slot is read as the sample that it shows: the text
-- of each position, which ParseLSN reads back as the position, and no endpos.
pub parse_sample-slot_report :
    (head write replay : ℕ)
    → head < 18446744073709551616
    → write < 18446744073709551616
    → replay < 18446744073709551616
    → (parse_sample (slot_report head write replay)
        ≡ some (record {
          write_lsn = print_lsn write;
          replay_lsn = print_lsn replay;
          endpos = [];
          source_head = print_lsn head;
        }))
      × (parse_lsn_text (print_lsn write) ≡ some write)
      × (parse_lsn_text (print_lsn replay) ≡ some replay)
      × (parse_lsn_text (print_lsn head) ≡ some head)
unfolding parse_sample same
parse_sample-slot_report head write replay h w r = (
  rw (fields-slot_report head write replay, read_fields-slot_report head write replay h w r)
      (rw (print_lsn-same_nil write)),
  parse_lsn_text-print write w,
  parse_lsn_text-print replay r,
  parse_lsn_text-print head h,
)
