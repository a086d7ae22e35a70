-- ===== src/Probe.antt =====
-- CMakeCXXCompilerId.cpp under CMakeFiles/4.0.1/CompilerIdCXX, the source that CMake generated and the
-- repository keeps: its preprocessor conditionals identify the compiler, the platform and the
-- language standard, and leave what they found in strings of the object file.
pub mod Digits
pub mod Compilers
pub mod Platforms
pub mod Architectures
pub mod Standard
pub mod Arrays
pub mod CProbe
use Prim.Native.String.{String}
use distributed_kvstore.Prelude.{
  ℕ, ◌+◌, ◌*◌, ◌/◌, ◌%◌, ◌^◌, Bool, true, false, Option, none, some, List, [], ◌∷◌, Bytes, codes,
}

-- What a macro is replaced by: an integer, a string literal, or nothing.
pub data Value : Type 0 where
  number : ℕ → Value
  literal : Bytes → Value
  blank : Value

-- The macros that the compiler predefines.
abbrev pub Macros : Type 0
Macros = String → Option Value

abbrev pub is_some {ℓ} : {A : Type ℓ} → Option A → Bool
is_some none = false
is_some (some a) = true

-- `defined(name)`
abbrev pub defined : Macros → String → Bool
defined m name = is_some (m name)

abbrev pub number_of : Option Value → Option ℕ
number_of (some (number n)) = some n
number_of _ = none

abbrev pub literal_of : Option Value → Option Bytes
literal_of (some (literal s)) = some s
literal_of _ = none

-- A name in the condition of an `#if`: an identifier that is no macro counts as 0. The macros that
-- the conditions compare hold integers.
abbrev pub value : Macros → String → ℕ
value m name = elim (number_of (m name)) [ none ↦ 0 | some n ↦ n ]

-- `DEC(n)`
unfoldable pub dec_digits : ℕ → Bytes
dec_digits n =
    (48 + n / 10000000 % 10)
    ∷ (48 + n / 1000000 % 10)
    ∷ (48 + n / 100000 % 10)
    ∷ (48 + n / 10000 % 10)
    ∷ (48 + n / 1000 % 10)
    ∷ (48 + n / 100 % 10)
    ∷ (48 + n / 10 % 10)
    ∷ (48 + n % 10)
    ∷ []

-- `HEX(n)`: a digit above 9 becomes one of the six characters behind `9`.
unfoldable pub hex_digits : ℕ → Bytes
hex_digits n =
    (48 + n / 2 ^ 28 % 16)
    ∷ (48 + n / 2 ^ 24 % 16)
    ∷ (48 + n / 2 ^ 20 % 16)
    ∷ (48 + n / 2 ^ 16 % 16)
    ∷ (48 + n / 2 ^ 12 % 16)
    ∷ (48 + n / 2 ^ 8 % 16)
    ∷ (48 + n / 2 ^ 4 % 16)
    ∷ (48 + n % 16)
    ∷ []

-- The replacement of one of the source's own macros, at its use: none if a name in it is not
-- declared, where the source does not compile.
abbrev pub Part : Type 0
Part = Option Bytes

abbrev pub map_part : {A : Type 0} → (A → Bytes) → Option A → Part
map_part f none = none
map_part f (some a) = some (f a)

-- `#define … DEC(f(name))`, `#define … HEX(f(name))` and `#define … name` of a string literal.
abbrev pub dec : Macros → String → (ℕ → ℕ) → Option Part
dec m name f = some (map_part (λ n. dec_digits (f n)) (number_of (m name)))

abbrev pub hex : Macros → String → (ℕ → ℕ) → Option Part
hex m name f = some (map_part (λ n. hex_digits (f n)) (number_of (m name)))

abbrev pub same : Macros → String → Option Part
same m name = dec m name (λ n. n)

abbrev pub text : Macros → String → Option Part
text m name = some (literal_of (m name))

-- A definition under an `#if`.
infix 1 ◌under◌
abbrev pub ◌under◌ : {A : Type 0} → Option A → Bool → Option A
x under true = x
x under false = none

-- The later of two definitions of one macro.
infixr 5 ◌over◌
abbrev pub ◌over◌ : {A : Type 0} → Option A → Option A → Option A
none over y = y
some x over y = some x

-- The source's own macros after the chain of compilers: `COMPILER_ID`, `SIMULATE_ID`,
-- `COMPILER_VERSION`, its components, its internal form as a number and as a string, and the
-- components of `SIMULATE_VERSION`. A macro that is not defined is `none`.
pub record Identity : Type 0 where
  pub compiler_id : Bytes
  pub simulate_id : Option Bytes
  pub version : Option Part
  pub major : Option Part
  pub minor : Option Part
  pub patch : Option Part
  pub tweak : Option Part
  pub internal : Option Part
  pub internal_str : Option Part
  pub simulate_major : Option Part
  pub simulate_minor : Option Part
  pub simulate_patch : Option Part
  pub simulate_tweak : Option Part

-- Nothing is defined but an empty `COMPILER_ID`.
abbrev pub unknown : Identity
unknown = record {
  compiler_id = [];
  simulate_id = none;
  version = none;
  major = none;
  minor = none;
  patch = none;
  tweak = none;
  internal = none;
  internal_str = none;
  simulate_major = none;
  simulate_minor = none;
  simulate_patch = none;
  simulate_tweak = none;
}

-- One `#elif` of the chain: its condition, the name in its `# define COMPILER_ID`, and what else it
-- defines.
pub record Branch : Type 0 where
  pub test : Macros → Bool
  pub name : String
  pub defines : Macros → Identity → Identity

abbrev pub identity : Branch → Macros → Identity
identity b m = record (b.defines m unknown) { compiler_id = codes b.name }

-- Three components.
abbrev pub three : Identity → Option Part → Option Part → Option Part → Identity
three i a b c = record i { major = a; minor = b; patch = c }

-- `_MSC_VER = VVRR`
abbrev pub simulate_msvc : Macros → Identity → Identity
simulate_msvc m i = record i {
  simulate_major = dec m "_MSC_VER" (λ n. n / 100) under defined m "_MSC_VER";
  simulate_minor = dec m "_MSC_VER" (λ n. n % 100) under defined m "_MSC_VER";
}
