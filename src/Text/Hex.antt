-- ===== src/Text/Hex.antt =====
-- The hexadecimal form of bytes: `std::setw(2) << std::hex` with fill `0`, and back by
-- `static_cast<uint8_t>(std::stoi(byte_str, nullptr, 16))`.
pub mod RoundTrip
use distributed_kvstore.Prelude.{
  ℕ, zero, suc, ◌+◌, ◌-◌, ◌*◌, ◌/◌, ◌%◌, ◌^◌, Bool, true, false, ◌&&◌, ◌||◌, Option, none, some,
  List, [], ◌∷◌, ◌++◌, Bytes, ltb, leb, ◌==◌, if◌then◌else◌, Result, ok, err, ◌>>=◌,
  invalid_argument, out_of_range,
}
use distributed_kvstore.Text.Words.{skip_spaces}

unfoldable pub hex_digit : ℕ → ℕ
hex_digit d = if ltb d 10 then b'0' + d else b'a' + (d - 10)

-- A byte is below 256: two digits, the first a 0 if need be.
unfoldable pub to_hex : Bytes → Bytes
unfolding hex_digit
to_hex [] = []
to_hex (b ∷ bs) = hex_digit (b / 16) ∷ hex_digit (b % 16) ∷ to_hex bs

unfoldable pub digit_value : ℕ → Option ℕ
digit_value c =
    if leb b'0' c && leb c b'9'
    then some (c - b'0')
    else if leb b'a' c && leb c b'f'
    then some (c - b'a' + 10)
    else if leb b'A' c && leb c b'F'
    then some (c - b'A' + 10)
    else none

-- The digits in front, read behind `n`.
unfoldable pub scan_hex : ℕ → Bytes → ℕ
unfolding digit_value
scan_hex n [] = n
scan_hex n (c ∷ s) = elim (digit_value c) [ none ↦ n | some d ↦ scan_hex (n * 16 + d) s ]

-- A magnitude of `strtol` in base 16, at most `limit`; no digit is `invalid_argument`.
unfoldable pub hex_magnitude : ℕ → Bytes → Result ℕ
unfolding scan_hex digit_value
hex_magnitude limit [] = err invalid_argument
hex_magnitude limit (c ∷ s) = elim (digit_value c) [
  | none ↦ err invalid_argument
  | some d ↦ let n = scan_hex d s in if ltb limit n then err out_of_range else ok n
]

-- `0x` in front is skipped if a digit follows it.
unfoldable pub skip_prefix : Bytes → Bytes
unfolding digit_value
skip_prefix (a ∷ x ∷ c ∷ s) =
    if (a == b'0' && (x == b'x' || x == b'X'))
    then elim (digit_value c) [ none ↦ a ∷ x ∷ c ∷ s | some d ↦ c ∷ s ]
    else a ∷ x ∷ c ∷ s
skip_prefix s = s

-- `static_cast<uint8_t>` of an `int`.
unfoldable pub stoi_signed : Bytes → Result ℕ
unfolding hex_magnitude skip_prefix
stoi_signed [] = err invalid_argument
stoi_signed (c ∷ s) =
    if c == b'-'
    then (do n ← hex_magnitude (2 ^ 31) (skip_prefix s); ok ((2 ^ 32 - n) % 256))
    else if c == b'+'
    then (do n ← hex_magnitude (2 ^ 31 - 1) (skip_prefix s); ok (n % 256))
    else do n ← hex_magnitude (2 ^ 31 - 1) (skip_prefix (c ∷ s)); ok (n % 256)

unfoldable pub stoi_u8 : Bytes → Result ℕ
unfolding stoi_signed skip_spaces
stoi_u8 s = stoi_signed (skip_spaces s)

-- The loop over `hexpath`, two characters a round; an odd last character is not read.
unfoldable pub from_hex : Bytes → Result Bytes
from_hex [] = ok []
from_hex (a ∷ []) = ok []
from_hex (a ∷ b ∷ s) = do n ← stoi_u8 (a ∷ b ∷ []); bs ← from_hex s; ok (n ∷ bs)
