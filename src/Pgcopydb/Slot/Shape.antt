-- ===== src/Pgcopydb/Slot/Shape.antt =====
-- PostgreSQL accepts every generated slot name: [a-z0-9_], 63 bytes at most.
use pgcopydb_operator.Prelude.{
  ℕ, zero, suc, ◌+◌, ◌/◌, ◌%◌, ◌<◌, ◌≤◌, ◌≡◌, refl, arith, Bool, true, ltb, leb, ◌==◌, ◌&&◌, ◌||◌,
  Bool-cases, inl, inr, [], ◌∷◌, ◌++◌, map, length, length-append,
}
use pgcopydb_operator.Text.{Text, codes}
use pgcopydb_operator.Text.Numbers.{hex_digit}
use pgcopydb_operator.Pgcopydb.Slot.{
  sanitize, hex_digits, max_name, prefix, raw_name, shortened, checksum, utf8, slot_name,
}

-- PostgreSQL's charset of slot names.
abbrev pub is_slot_char : ℕ → Bool
is_slot_char c = (leb b'a' c && leb c b'z') || (leb b'0' c && leb c b'9') || c == b'_'

abbrev pub AllSlotChars : Text → Type 0
AllSlotChars [] = Unit {0}
AllSlotChars (c ∷ s) = (is_slot_char c ≡ true) × AllSlotChars s

AllSlotChars-append : (s t : Text) → AllSlotChars s → AllSlotChars t → AllSlotChars (s ++ t)
AllSlotChars-append [] t a b = b
AllSlotChars-append (c ∷ s) t (e, a) b = (e, AllSlotChars-append s t a b)

sanitize-slot_char : (c : ℕ) → is_slot_char (sanitize c) ≡ true
unfolding sanitize
sanitize-slot_char c = ground arith

map-sanitize : (s : Text) → AllSlotChars (map sanitize s)
map-sanitize [] = tt
map-sanitize (c ∷ s) = (sanitize-slot_char c, map-sanitize s)

prefix-AllSlotChars : (n : ℕ) (s : Text) → AllSlotChars s → AllSlotChars (prefix n s)
unfolding prefix
prefix-AllSlotChars zero s a = tt
prefix-AllSlotChars (suc n) [] a = tt
prefix-AllSlotChars (suc n) (c ∷ s) (e, a) = (e, prefix-AllSlotChars n s a)

prefix-length : (n : ℕ) (s : Text) → length (prefix n s) ≤ n
unfolding prefix
prefix-length zero s = omega arith
prefix-length (suc n) [] = omega arith
prefix-length (suc n) (c ∷ s) = omega (arith, prefix-length n s)

shortened-AllSlotChars : (s : Text) → AllSlotChars s → AllSlotChars (shortened s)
shortened-AllSlotChars s a = elim (Bool-cases (ltb max_name (length s))) [
  | inl q ↦ rw q (prefix-AllSlotChars max_name s a)
  | inr q ↦ rw q a
]

shortened-length : (s : Text) → length (shortened s) ≤ 45
shortened-length s = elim (Bool-cases (ltb max_name (length s))) [
  | inl q ↦ rw q (prefix-length max_name s)
  | inr q ↦ rw q (ground (arith, q))
]

hex_digit-slot_char : (d : ℕ) → d < 16 → is_slot_char (hex_digit b'a' d) ≡ true
unfolding hex_digit
hex_digit-slot_char d h = ground arith

hex_digits-AllSlotChars :
    (k n : ℕ) (out : Text) → AllSlotChars out → AllSlotChars (hex_digits k n out)
unfolding hex_digits
hex_digits-AllSlotChars zero n out a = a
hex_digits-AllSlotChars (suc k) n out a =
    hex_digits-AllSlotChars k (n / 16) _ (hex_digit-slot_char (n % 16) (omega arith), a)

hex_digits-length : (k n : ℕ) (out : Text) → length (hex_digits k n out) ≡ k + length out
unfolding hex_digits
hex_digits-length zero n out = omega arith
hex_digits-length (suc k) n out =
    omega (arith, hex_digits-length k (n / 16) (hex_digit b'a' (n % 16) ∷ out))

-- Whatever the namespace and the name, the slot name has at most 63 characters, one byte each, all
-- of them in [a-z0-9_].
pub slot_name-IsValid :
    (namespace name : Text)
    → (length (slot_name namespace name) ≤ 63) × AllSlotChars (slot_name namespace name)
unfolding slot_name
slot_name-IsValid namespace name =
    let raw : Text = raw_name namespace name in
    let sum : ℕ = checksum (utf8 raw) in
    let s : Text = map sanitize raw in
    (
      omega (
        arith,
        length-append (codes "pgcopydb_") (shortened s ++ b'_' ∷ hex_digits 8 sum []),
        length-append (shortened s) (b'_' ∷ hex_digits 8 sum []),
        shortened-length s,
        hex_digits-length 8 sum [],
      ),
      AllSlotChars-append (codes "pgcopydb_") _
          (refl, (refl, (refl, (refl, (refl, (refl, (refl, (refl, (refl, tt)))))))))
          (AllSlotChars-append (shortened s) _ (shortened-AllSlotChars s (map-sanitize raw))
            (refl, hex_digits-AllSlotChars 8 sum [] tt)),
    )
