-- ===== src/Prelude.antt =====
-- The names that the other modules share: the libraries', passed on, the Boolean tests on native
-- numbers, the conditional, and the result type of code that throws.
use Prim.Native.Nat.{compare, Ordering}
use Prim.Native.Char.{code}
use Prim.Native.String.{String}
pub use Prim.Native.Nat.{ℕ, zero, suc, ◌+◌, ◌-◌, ◌*◌, ◌/◌, ◌%◌, ◌^◌, ◌≤◌, ◌<◌}
pub use mathlib.Core.Path.{◌≡◌, refl, sym, ap, ◌∙◌}
pub use mathlib.Core.Logic.{◌≢◌, ◌↔◌, ◌⊎◌, inl, inr}
pub use mathlib.Core.Logic.{ite, dite}
pub use mathlib.Core.Bool.{Bool, true, false, ◌&&◌, ◌||◌}
pub use mathlib.Core.Option.{Option, none, some}
pub use mathlib.Core.List.{List, [], ◌∷◌, ◌++◌, map}
pub use native.Mathlib.Omega.{arith}
unfoldable pub use native.Mathlib.Decide.{ℕ_discrete}

-- A `std::string` is the list of its bytes.
abbrev pub Bytes : Type 0
Bytes = List ℕ

-- The bytes of an ASCII literal.
abbrev pub codes : String → Bytes
codes String.[] = []
codes (String.◌∷◌ c s) = code c ∷ codes s

abbrev pub ltb : ℕ → ℕ → Bool
ltb a b = elim (compare a b) [ Ordering.lt ↦ true | _ ↦ false ]

abbrev pub leb : ℕ → ℕ → Bool
leb a b = elim (compare a b) [ Ordering.gt ↦ false | _ ↦ true ]

infix 50 ◌==◌
abbrev pub ◌==◌ : ℕ → ℕ → Bool
a == b = elim (compare a b) [ Ordering.eq ↦ true | _ ↦ false ]

infix 1 if◌then◌else◌
abbrev pub if◌then◌else◌ {ℓ} : {A : Type ℓ} → Bool → A → A → A
if true then x else y = x
if false then x else y = y

-- To split on a computed value and keep the equation.
pub Bool-cases : (b : Bool) → (b ≡ true) ⊎ (b ≡ false)
Bool-cases true = inl refl
Bool-cases false = inr refl

pub Option-cases {ℓ} : {A : Type ℓ} (o : Option A) → (o ≡ none) ⊎ ((a : A) × (o ≡ some a))
Option-cases none = inl refl
Option-cases (some a) = inr (a, refl)

-- The exceptions that the program can meet: those of `stoull` and `stoi`, and those of a socket.
pub data Exception : Type 0 where
  invalid_argument out_of_range system_error : Exception

pub data Result {ℓ} (A : Type ℓ) : Type ℓ where
  ok : A → Result A
  err : Exception → Result A

infixl 5 ◌>>=◌
abbrev pub ◌>>=◌ {ℓ κ} : {A : Type ℓ} {B : Type κ} → Result A → (A → Result B) → Result B
ok a >>= f = f a
err e >>= f = err e

module _ {ℓ} {A : Type ℓ} where
  abbrev pub length : List A → ℕ
  length [] = 0
  length (x ∷ xs) = suc (length xs)

  abbrev pub get_elem? : List A → ℕ → Option A
  get_elem? [] i = none
  get_elem? (x ∷ xs) zero = some x
  get_elem? (x ∷ xs) (suc i) = get_elem? xs i

  -- A write out of bounds changes nothing.
  abbrev pub set_elem : List A → ℕ → A → List A
  set_elem [] i v = []
  set_elem (x ∷ xs) zero v = v ∷ xs
  set_elem (x ∷ xs) (suc i) v = x ∷ set_elem xs i v

  abbrev pub take : ℕ → List A → List A
  take zero xs = []
  take (suc n) [] = []
  take (suc n) (x ∷ xs) = x ∷ take n xs

  abbrev pub All {κ} : (A → Type κ) → List A → Type κ
  All P [] = Unit
  All P (x ∷ xs) = P x × All P xs

module _ {ℓ} {A : Type ℓ} where
  pub get_elem?-set_elem_self :
      (xs : List A) (i : ℕ) (v : A) → i < length xs → get_elem? (set_elem xs i v) i ≡ some v
  get_elem?-set_elem_self [] i v h = elim h [ ]
  get_elem?-set_elem_self (x ∷ xs) zero v h = refl
  get_elem?-set_elem_self (x ∷ xs) (suc i) v h = get_elem?-set_elem_self xs i v (omega arith)

  -- What stands in a list behind a write.
  pub get_elem?-set_elem :
      (xs : List A) (i j : ℕ) (v w : A)
      → get_elem? (set_elem xs i v) j ≡ some w
      → ((j ≡ i) × (w ≡ v)) ⊎ (get_elem? xs j ≡ some w)
  get_elem?-set_elem [] i j v w e = inr e
  get_elem?-set_elem (x ∷ xs) zero zero v w e = let e' : v ≡ w = cc in inl (refl, sym e')
  get_elem?-set_elem (x ∷ xs) zero (suc j) v w e = inr e
  get_elem?-set_elem (x ∷ xs) (suc i) zero v w e = inr e
  get_elem?-set_elem (x ∷ xs) (suc i) (suc j) v w e = elim (get_elem?-set_elem xs i j v w e) [
    | inl (p, q) ↦ inl (ap suc p, q)
    | inr h ↦ inr h
  ]

  pub length-set_elem : (xs : List A) (i : ℕ) (v : A) → length (set_elem xs i v) ≡ length xs
  length-set_elem [] i v = refl
  length-set_elem (x ∷ xs) zero v = refl
  length-set_elem (x ∷ xs) (suc i) v = ap suc (length-set_elem xs i v)

  pub length-append : (xs ys : List A) → length (xs ++ ys) ≡ length xs + length ys
  length-append [] ys = omega arith
  length-append (x ∷ xs) ys = omega (arith, length-append xs ys)

pub All-append {ℓ κ} :
    {A : Type ℓ} (P : A → Type κ) (xs ys : List A) → All P xs → All P ys → All P (xs ++ ys)
All-append P [] ys hx hy = hy
All-append P (x ∷ xs) ys (px, hx) hy = (px, All-append P xs ys hx hy)

-- An element taken out of the middle.
pub All-middle {ℓ κ} :
    {A : Type ℓ} (P : A → Type κ) (xs : List A) (y : A) (ys : List A)
    → All P (xs ++ y ∷ ys)
    → P y × All P (xs ++ ys)
All-middle P [] y ys h = h
All-middle P (x ∷ xs) y ys (px, h) = let (py, rest) = All-middle P xs y ys h in (py, (px, rest))

pub All-replace {ℓ κ} :
    {A : Type ℓ} (P : A → Type κ) (xs : List A) (y z : A) (ys : List A)
    → (P y → P z)
    → All P (xs ++ y ∷ ys)
    → All P (xs ++ z ∷ ys)
All-replace P [] y z ys f (h, hs) = (f h, hs)
All-replace P (x ∷ xs) y z ys f (h, hs) = (h, All-replace P xs y z ys f hs)

pub take-append {ℓ} :
    {A : Type ℓ} (p s : List A) (n k : ℕ) → n ≡ length p + k → take n (p ++ s) ≡ p ++ take k s
take-append [] s n k e = ap (λ (m : ℕ). take m s) (omega (arith, e))
take-append (c ∷ p) s zero k e = absurd (omega (arith, e))
take-append {A = A} (c ∷ p) s (suc n) k e =
    ap (λ (r : List A). c ∷ r) (take-append p s n k (omega (arith, e)))

pub take_all {ℓ} : {A : Type ℓ} (n : ℕ) (s : List A) → length s ≤ n → take n s ≡ s
take_all zero [] h = refl
take_all zero (c ∷ s) h = absurd (omega (arith, h))
take_all (suc n) [] h = refl
take_all {A = A} (suc n) (c ∷ s) h = ap (λ (r : List A). c ∷ r) (take_all n s (omega (arith, h)))

pub take-append_left {ℓ} :
    {A : Type ℓ} (n : ℕ) (p s : List A) → n ≤ length p → take n (p ++ s) ≡ take n p
take-append_left zero p s le = refl
take-append_left (suc n) [] s le = absurd (omega (arith, le))
take-append_left {A = A} (suc n) (c ∷ p) s le =
    ap (λ (r : List A). c ∷ r) (take-append_left n p s (omega (arith, le)))
