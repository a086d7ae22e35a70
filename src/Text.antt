-- ===== src/Text.antt =====
-- `std::string` as the program uses it: equality, `find` of a character, and the text operations
-- of its children.
use distributed_kvstore.Prelude.{
  ℕ, ◌≡◌, refl, ap, ite, dite, Bool, true, false, Option, none, some, List, [], ◌∷◌, ◌++◌, Bytes,
  ℕ_discrete, ◌==◌ as nat_eq, if◌then◌else◌, All, ◌≢◌, arith,
}
pub mod Words
pub mod Decimal
pub mod Fields
pub mod Hex

bytes_cons_dec :
    {a b : ℕ} {s t : Bytes} → Dec (a ≡ b) → Dec (s ≡ t) → Dec (◌≡◌ {A = Bytes} (a ∷ s) (b ∷ t))
bytes_cons_dec (yes p) (yes q) = yes (λ i. p i ∷ q i)
bytes_cons_dec (yes p) (no n) = no (λ e. n (cc))
bytes_cons_dec (no n) d = no (λ e. n (cc))

unfoldable pub bytes_dec : (s t : Bytes) → Dec (s ≡ t)
unfolding bytes_cons_dec ℕ_discrete
bytes_dec [] [] = yes refl
bytes_dec [] (b ∷ t) = no (λ e. cc)
bytes_dec (a ∷ s) [] = no (λ e. cc)
bytes_dec (a ∷ s) (b ∷ t) = bytes_cons_dec (ℕ_discrete a b) (bytes_dec s t)

-- `operator==` on strings.
infix 50 ◌==◌
abbrev pub ◌==◌ : Bytes → Bytes → Bool
s == t = ite (bytes_dec s t) true false

-- No byte of the text is `c`.
abbrev pub Lacks : ℕ → Bytes → Type 0
Lacks c = All (λ b. b ≢ c)
