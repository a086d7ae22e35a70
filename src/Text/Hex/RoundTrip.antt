-- ===== src/Text/Hex/RoundTrip.antt =====
-- Bytes are read back from their hexadecimal form, which holds no separator of the protocol.
use distributed_kvstore.Prelude.{
  ℕ, zero, suc, ◌/◌, ◌%◌, ◌<◌, ◌≡◌, refl, Bool, true, false, if◌then◌else◌, List, Bool-cases, inl,
  inr, ℕ_discrete, none, [], ◌∷◌, Bytes, ◌==◌, Result, ok, err, All, arith,
}
use distributed_kvstore.Text.{Lacks}
use distributed_kvstore.Text.Hex.{hex_digit, to_hex, digit_value, stoi_u8, from_hex}

abbrev is_ok : ℕ → Result ℕ → Bool
is_ok b (ok n) = n == b
is_ok b (err e) = false

is_ok_sound : (b : ℕ) (r : Result ℕ) → is_ok b r ≡ true → r ≡ ok b
is_ok_sound b (ok n) h = ground arith
is_ok_sound b (err e) h = cc

-- The two digits of a byte, read.
read_digits : ℕ → Result ℕ
unfolding hex_digit stoi_u8
read_digits b = stoi_u8 (hex_digit (b / 16) ∷ hex_digit (b % 16) ∷ [])

-- The bytes under a bound that are not read back: evaluation finds none.
unread : ℕ → List ℕ
unread zero = []
unread (suc b) = if is_ok b (read_digits b) then unread b else b ∷ unread b

read_digits-below : (bound b : ℕ) → b < bound → unread bound ≡ [] → read_digits b ≡ ok b
unfolding unread
read_digits-below zero b lt none_unread = absurd (omega arith)
read_digits-below (suc top) b lt none_unread = elim (Bool-cases (is_ok top (read_digits top))) [
  | inl e ↦ elim (ℕ_discrete b top) [
    | yes same ↦ rw same (is_ok_sound top (read_digits top) e)
    | no other ↦ read_digits-below top b (omega arith) (ground (arith, e, none_unread))
  ]
  | inr e ↦ absurd (ground (arith, e, none_unread))
]

stoi_u8-hex_digit :
    (b : ℕ) → b < 256 → stoi_u8 (hex_digit (b / 16) ∷ hex_digit (b % 16) ∷ []) ≡ ok b
unfolding read_digits unread hex_digit stoi_u8
stoi_u8-hex_digit b h = read_digits-below 256 b h refl

from_hex_pair :
    (x y : ℕ) (s bs : Bytes) (b : ℕ)
    → stoi_u8 (x ∷ y ∷ []) ≡ ok b
    → from_hex s ≡ ok bs
    → from_hex (x ∷ y ∷ s) ≡ ok (b ∷ bs)
unfolding from_hex
from_hex_pair x y s bs b h k = rw h (rw k refl)

-- Bytes below 256 come back from their hexadecimal form.
pub from_hex-to_hex : (bs : Bytes) → All (λ b. b < 256) bs → from_hex (to_hex bs) ≡ ok bs
unfolding to_hex
from_hex-to_hex [] h = unfold from_hex in refl
from_hex-to_hex (b ∷ bs) (hb, h) =
    from_hex_pair _ _ (to_hex bs) bs b (stoi_u8-hex_digit b hb) (from_hex-to_hex bs h)

-- The form holds hexadecimal digits only.
pub to_hex-Lacks :
    (c : ℕ) (bs : Bytes) → All (λ b. b < 256) bs → digit_value c ≡ none → Lacks c (to_hex bs)
unfolding to_hex digit_value
to_hex-Lacks c [] h k = tt
to_hex-Lacks c (b ∷ bs) (hb, h) k = (ground arith, (ground arith, to_hex-Lacks c bs h k))
