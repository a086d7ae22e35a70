-- ===== src/Probe/Digits.antt =====
-- The eight decimal digits of a version component.
use mathlib.Core.List.{append-nil}
use distributed_kvstore.Prelude.{
  ℕ, ◌+◌, ◌/◌, ◌%◌, ◌≡◌, ◌≢◌, refl, sym, ap, ◌∙◌, [], ◌∷◌, Bytes, ok, All, arith,
}
use distributed_kvstore.Text.Decimal.{scan_digits, stoull}
use distributed_kvstore.Text.Decimal.RoundTrip.{IsDigit, last-IsDigit, scan-last, stoull-digits}
use distributed_kvstore.Probe.{dec_digits}

dec_digits-IsDigit : (n : ℕ) → All IsDigit (dec_digits n)
unfolding dec_digits
dec_digits-IsDigit n = (
  last-IsDigit (n / 10000000),
  (
    last-IsDigit (n / 1000000),
    (
      last-IsDigit (n / 100000),
      (
        last-IsDigit (n / 10000),
        (
          last-IsDigit (n / 1000),
          (last-IsDigit (n / 100), (last-IsDigit (n / 10), (last-IsDigit n, tt))),
        ),
      ),
    ),
  ),
)

-- One digit of a number is read behind the others.
scan-digit :
    (high digit number : ℕ) (s : Bytes)
    → number / 10 ≡ high
    → number % 10 ≡ digit
    → scan_digits high ((48 + digit) ∷ s) ≡ scan_digits number s
scan-digit high digit number s e e' = rw (← e, ← e') (scan-last number s)

scan-nil : (n : ℕ) → scan_digits n [] ≡ n
unfolding scan_digits
scan-nil n = refl

dec_digits-ne-nil : (n : ℕ) → dec_digits n ≢ []
unfolding dec_digits
dec_digits-ne-nil n e = cc

scan-dec_digits : (n : ℕ) → scan_digits 0 (dec_digits n) ≡ n % 100000000
unfolding dec_digits
scan-dec_digits n =
    scan-digit 0 (n / 10000000 % 10) (n / 10000000 % 10) _ (omega arith) (omega arith)
    ∙ scan-digit (n / 10000000 % 10) (n / 1000000 % 10) (n / 1000000 % 100) _ (omega arith)
        (omega arith)
    ∙ scan-digit (n / 1000000 % 100) (n / 100000 % 10) (n / 100000 % 1000) _ (omega arith)
        (omega arith)
    ∙ scan-digit (n / 100000 % 1000) (n / 10000 % 10) (n / 10000 % 10000) _ (omega arith)
        (omega arith)
    ∙ scan-digit (n / 10000 % 10000) (n / 1000 % 10) (n / 1000 % 100000) _ (omega arith)
        (omega arith)
    ∙ scan-digit (n / 1000 % 100000) (n / 100 % 10) (n / 100 % 1000000) _ (omega arith)
        (omega arith)
    ∙ scan-digit (n / 100 % 1000000) (n / 10 % 10) (n / 10 % 10000000) _ (omega arith) (omega arith)
    ∙ scan-digit (n / 10 % 10000000) (n % 10) (n % 100000000) [] (omega arith) (omega arith)
    ∙ scan-nil (n % 100000000)

-- The digits of a component, read as a number, are the component modulo 10^8: a component below 10^8
-- comes back, and of a larger one the leading digits are lost.
stoull-dec_digits : (n : ℕ) → stoull (dec_digits n) ≡ ok (n % 100000000)
stoull-dec_digits n =
    ap stoull (sym (append-nil (dec_digits n)))
    ∙ stoull-digits (dec_digits n) [] (dec_digits-ne-nil n) (dec_digits-IsDigit n)
        (rw (append-nil (dec_digits n), scan-dec_digits n) (omega arith))
    ∙ ap ok (ap (scan_digits 0) (append-nil (dec_digits n)) ∙ scan-dec_digits n)
