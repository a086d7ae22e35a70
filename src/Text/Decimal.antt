-- ===== src/Text/Decimal.antt =====
-- `std::to_string` and `<<` of a `uint64_t`, and `std::stoull`.
pub mod RoundTrip
use distributed_kvstore.Prelude.{
  ℕ, zero, suc, ◌+◌, ◌-◌, ◌*◌, ◌/◌, ◌%◌, ◌^◌, Bool, true, false, ◌&&◌, ◌||◌, [], ◌∷◌, Bytes, leb,
  ltb, ◌==◌, if◌then◌else◌, Result, ok, err, invalid_argument, out_of_range, Option, none, some,
}
use distributed_kvstore.Text.Words.{skip_spaces}

abbrev pub max_u64 : ℕ
max_u64 = 2 ^ 64 - 1

-- The digits of `n` in front of `out`; `n / 10` is 0 before the fuel ends if `n` is below it.
unfoldable pub put_digits : ℕ → ℕ → Bytes → Bytes
put_digits zero n out = out
put_digits (suc fuel) n out =
    let d = b'0' + n % 10 in
    let rest = put_digits fuel (n / 10) (d ∷ out) in if n / 10 == 0 then d ∷ out else rest

unfoldable pub to_string : ℕ → Bytes
unfolding put_digits
to_string n = put_digits (suc n) n []

unfoldable pub is_digit : ℕ → Bool
is_digit c = leb b'0' c && leb c b'9'

-- The value of the digits in front, and whether there is one.
unfoldable pub scan_digits : ℕ → Bytes → ℕ
unfolding is_digit
scan_digits n [] = n
scan_digits n (c ∷ s) =
    let more = scan_digits (n * 10 + (c - b'0')) s in if is_digit c then more else n

unfoldable pub starts_with_digit : Bytes → Bool
unfolding is_digit
starts_with_digit [] = false
starts_with_digit (c ∷ s) = is_digit c

-- `strtoull` without its sign: no digit is `invalid_argument`, a number too large `out_of_range`.
unfoldable pub read_magnitude : Bytes → Result ℕ
unfolding scan_digits starts_with_digit
read_magnitude s =
    if starts_with_digit s
    then (let n = scan_digits 0 s in if ltb max_u64 n then err out_of_range else ok n)
    else err invalid_argument

-- A minus sign negates modulo 2^64.
abbrev negate : Result ℕ → Result ℕ
negate (ok n) = ok ((2 ^ 64 - n) % 2 ^ 64)
negate (err e) = err e

unfoldable pub read_signed : Bytes → Result ℕ
unfolding read_magnitude
read_signed [] = err invalid_argument
read_signed (c ∷ s) =
    if c == b'-'
    then negate (read_magnitude s)
    else if c == b'+'
    then read_magnitude s
    else read_magnitude (c ∷ s)

-- `std::stoull`: text behind the digits is left unread.
unfoldable pub stoull : Bytes → Result ℕ
unfolding read_signed skip_spaces
stoull s = read_signed (skip_spaces s)
