-- ===== src/Text/Decimal/RoundTrip.antt =====
-- A printed `uint64_t` is a word of digits, and is read back.
use distributed_kvstore.Prelude.{
  ℕ, zero, suc, ◌+◌, ◌-◌, ◌*◌, ◌/◌, ◌%◌, ◌≤◌, ◌<◌, ◌≡◌, ◌≢◌, refl, ap, sym, List, true, false, [],
  ◌∷◌, ◌++◌, Bytes, ◌==◌, ok, All, arith, Bool-cases, inl, inr, ◌∙◌,
}
use distributed_kvstore.Text.{Lacks}
use distributed_kvstore.Text.Words.{IsWord, is_space}
use distributed_kvstore.Text.Decimal.{
  max_u64, put_digits, to_string, is_digit, scan_digits, read_magnitude, read_signed, stoull,
}

abbrev pub IsDigit : ℕ → Type 0
IsDigit c = is_digit c ≡ true

pub last-IsDigit : (n : ℕ) → IsDigit (b'0' + n % 10)
unfolding is_digit
last-IsDigit n = ground arith

put_digits-IsDigit : (f n : ℕ) (out : Bytes) → All IsDigit out → All IsDigit (put_digits f n out)
unfolding put_digits
put_digits-IsDigit zero n out h = h
put_digits-IsDigit (suc f) n out h = elim (Bool-cases (n / 10 == 0)) [
  | inl e ↦ rw e (last-IsDigit n, h)
  | inr e ↦ rw e (put_digits-IsDigit f (n / 10) _ (last-IsDigit n, h))
]

put_digits-ne-nil : (f n : ℕ) (out : Bytes) → out ≢ [] → put_digits f n out ≢ []
unfolding put_digits
put_digits-ne-nil zero n out h = h
put_digits-ne-nil (suc f) n out h = elim (Bool-cases (n / 10 == 0)) [
  | inl e ↦ rw e (λ q. cc)
  | inr e ↦ rw e (put_digits-ne-nil f (n / 10) _ (λ q. cc))
]

pub to_string-digits : (n : ℕ) → All IsDigit (to_string n)
unfolding to_string
to_string-digits n = put_digits-IsDigit (suc n) n [] tt

pub scan-last : (n : ℕ) (s : Bytes) → scan_digits (n / 10) ((b'0' + n % 10) ∷ s) ≡ scan_digits n s
unfolding scan_digits
scan-last n s = rw (last-IsDigit n) (ap (λ (m : ℕ). scan_digits m s) (omega arith))

scan_from_zero :
    (n : ℕ) (s : Bytes) → n / 10 ≡ 0 → scan_digits 0 ((b'0' + n % 10) ∷ s) ≡ scan_digits n s
scan_from_zero n s z = ap (λ (m : ℕ). scan_digits m ((b'0' + n % 10) ∷ s)) (sym z) ∙ scan-last n s

scan-put_digits :
    (f n : ℕ) (out : Bytes) → n < f → scan_digits 0 (put_digits f n out) ≡ scan_digits n out
unfolding put_digits
scan-put_digits zero n out h = absurd (omega arith)
scan-put_digits (suc f) n out h = elim (Bool-cases (n / 10 == 0)) [
  | inl e ↦ let z : n / 10 ≡ 0 = ground arith in rw e (scan_from_zero n out z)
  | inr e ↦ rw e (scan-put_digits f (n / 10) _ (ground arith) ∙ scan-last n out)
]

-- Digits go on being read only while there are digits.
abbrev pub Ends : Bytes → Type 0
Ends [] = Unit
Ends (c ∷ s) = is_digit c ≡ false

scan-append :
    (n : ℕ) (ds r : Bytes) → All IsDigit ds → Ends r → scan_digits n (ds ++ r) ≡ scan_digits n ds
unfolding scan_digits
scan-append n [] [] h e = refl
scan-append n [] (c ∷ r) h e = rw e refl
scan-append n (c ∷ ds) r (hc, h) e = rw hc (scan-append (n * 10 + (c - b'0')) ds r h e)

scan-to_string : (n : ℕ) (r : Bytes) → Ends r → scan_digits 0 (to_string n ++ r) ≡ n
unfolding to_string
scan-to_string n r e =
    scan-append 0 (to_string n) r (to_string-digits n) e
    ∙ scan-put_digits (suc n) n [] (omega arith)
    ∙ unfold scan_digits in refl

pub digit-not-space : (c : ℕ) → IsDigit c → is_space c ≡ false
unfolding is_digit is_space
digit-not-space c h = ground arith

pub All-map {ℓ κ κ'} :
    {A : Type ℓ} (P : A → Type κ) (Q : A → Type κ')
    → ((a : A) → P a → Q a)
    → (xs : List A) → All P xs
    → All Q xs
All-map P Q f [] h = tt
All-map P Q f (x ∷ xs) (h, hs) = (f x h, All-map P Q f xs hs)

pub to_string-ne-nil : (n : ℕ) → to_string n ≢ []
unfolding to_string put_digits
to_string-ne-nil n = elim (Bool-cases (n / 10 == 0)) [
  | inl e ↦ rw e (λ q. cc)
  | inr e ↦ rw e (put_digits-ne-nil n (n / 10) _ (λ q. cc))
]

pub to_string-IsWord : (n : ℕ) → IsWord (to_string n)
to_string-IsWord n =
    (to_string-ne-nil n, All-map IsDigit _ digit-not-space (to_string n) (to_string-digits n))

stoull_no_space : (c : ℕ) (s : Bytes) → is_space c ≡ false → stoull (c ∷ s) ≡ read_signed (c ∷ s)
stoull_no_space c s h = unfold stoull in rw h refl

read_signed-digit : (c : ℕ) (s : Bytes) → IsDigit c → read_signed (c ∷ s) ≡ read_magnitude (c ∷ s)
unfolding is_digit
read_signed-digit c s h = unfold read_signed in ground arith

read_magnitude-digit :
    (c : ℕ) (s : Bytes)
    → IsDigit c
    → scan_digits 0 (c ∷ s) ≤ max_u64
    → read_magnitude (c ∷ s) ≡ ok (scan_digits 0 (c ∷ s))
unfolding read_magnitude
read_magnitude-digit c s h fits = ground arith

-- Digits are read as they stand.
pub stoull-digits :
    (ds r : Bytes)
    → ds ≢ []
    → All IsDigit ds
    → scan_digits 0 (ds ++ r) ≤ max_u64
    → stoull (ds ++ r) ≡ ok (scan_digits 0 (ds ++ r))
stoull-digits [] r filled h fits = absurd (filled refl)
stoull-digits (c ∷ ds) r filled (hc, h) fits =
    stoull_no_space c (ds ++ r) (digit-not-space c hc)
    ∙ read_signed-digit c (ds ++ r) hc
    ∙ read_magnitude-digit c (ds ++ r) hc fits

-- A printed uint64_t is read back by `stoull`, whatever text without a leading digit follows.
pub stoull-to_string : (n : ℕ) (r : Bytes) → n ≤ max_u64 → Ends r → stoull (to_string n ++ r) ≡ ok n
stoull-to_string n r fits e =
    stoull-digits (to_string n) r (to_string-ne-nil n) (to_string-digits n)
      (rw (scan-to_string n r e) fits)
    ∙ ap ok (scan-to_string n r e)

digit-ne : (c s : ℕ) → is_digit s ≡ false → IsDigit c → c ≢ s
unfolding is_digit
digit-ne c s h k = ground arith

-- A printed number holds digits only.
pub to_string-Lacks : (s n : ℕ) → is_digit s ≡ false → Lacks s (to_string n)
to_string-Lacks s n h =
    All-map IsDigit _ (λ c d. digit-ne c s h d) (to_string n) (to_string-digits n)
