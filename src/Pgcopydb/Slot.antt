-- ===== src/Pgcopydb/Slot.antt =====
-- The generated replication slot name (SlotName of internal/pgcopydb/args.go).
pub mod Shape
use Prim.Native.Nat.{bit_xor}
use pgcopydb_operator.Prelude.{
  ℕ, zero, suc, ◌+◌, ◌-◌, ◌*◌, ◌/◌, ◌%◌, ltb, leb, ◌==◌, if◌then◌else◌, ◌&&◌, ◌||◌, List, [], ◌∷◌,
  ◌++◌, map, length,
}
use pgcopydb_operator.Text.{Text, codes}
use pgcopydb_operator.Text.Numbers.{hex_digit}

-- The UTF-8 bytes of a code point, and of a text.
abbrev utf8_of : ℕ → List ℕ
utf8_of c =
    if ltb c 0x80
    then c ∷ []
    else if ltb c 0x800
    then (0xc0 + c / 64) ∷ (0x80 + c % 64) ∷ []
    else if ltb c 0x10000
    then (0xe0 + c / 4096) ∷ (0x80 + c / 64 % 64) ∷ (0x80 + c % 64) ∷ []
    else (0xf0 + c / 262144) ∷ (0x80 + c / 4096 % 64) ∷ (0x80 + c / 64 % 64) ∷ (0x80 + c % 64) ∷ []

unfoldable pub utf8 : Text → List ℕ
utf8 [] = []
utf8 (c ∷ s) = utf8_of c ++ utf8 s

-- One bit of the reflected polynomial division, `k` of them, on uint32.
abbrev crc_bit : ℕ → ℕ
crc_bit r = if r % 2 == 1 then bit_xor (r / 2) 0xedb88320 % 4294967296 else r / 2 % 4294967296

unfoldable pub crc_bits : ℕ → ℕ → ℕ
crc_bits zero r = r
crc_bits (suc k) r = crc_bits k (crc_bit r)

unfoldable pub crc_from : List ℕ → ℕ → ℕ
crc_from [] r = r
crc_from (b ∷ bs) r = crc_from bs (crc_bits 8 (bit_xor r b % 4294967296))

-- crc32.ChecksumIEEE
unfoldable pub checksum : List ℕ → ℕ
checksum bs = bit_xor (crc_from bs 0xffffffff) 0xffffffff % 4294967296

-- The function of strings.Map.
unfoldable pub sanitize : ℕ → ℕ
sanitize r =
    if (leb b'a' r && leb r b'z') || (leb b'0' r && leb r b'9') || r == b'_'
    then r
    else if leb b'A' r && leb r b'Z'
    then r + (b'a' - b'A')
    else b'_'

-- fmt's %08x of a uint32: eight digits.
unfoldable pub hex_digits : ℕ → ℕ → Text → Text
hex_digits zero n out = out
hex_digits (suc k) n out = hex_digits k (n / 16) (hex_digit b'a' (n % 16) ∷ out)

-- 63 - 1 - 8 - len("pgcopydb_")
abbrev pub max_name : ℕ
max_name = 45

unfoldable pub prefix : ℕ → Text → Text
prefix zero s = []
prefix (suc n) [] = []
prefix (suc n) (c ∷ s) = c ∷ prefix n s

abbrev pub raw_name : (namespace name : Text) → Text
raw_name namespace name = namespace ++ b'_' ∷ name

abbrev shortened : Text → Text
shortened s = if ltb max_name (length s) then prefix max_name s else s

-- SlotName
unfoldable pub slot_name : (namespace name : Text) → Text
slot_name namespace name =
    codes "pgcopydb_"
    ++ (shortened (map sanitize (raw_name namespace name))
        ++ b'_' ∷ hex_digits 8 (checksum (utf8 (raw_name namespace name))) [])
