-- ===== src/Probe/Arrays.antt =====
-- The strings that the object file carries, and the `main` that keeps them in it.
pub mod Bounds
use Prim.Native.String.{String}
use distributed_kvstore.Prelude.{
  ℕ, ◌+◌, Bool, true, false, Option, none, some, List, [], ◌∷◌, ◌++◌, Bytes, codes, get_elem?,
  if◌then◌else◌,
}
use distributed_kvstore.Probe.{is_some, Macros, defined, Part, Identity, ◌under◌}
use distributed_kvstore.Probe.Compilers.{identify}
use distributed_kvstore.Probe.Platforms.{platform_id}
use distributed_kvstore.Probe.Architectures.{architecture_id}
use distributed_kvstore.Probe.Standard.{cxx_std, standard_name, extensions_name}

infixl 5 ◌>>=◌
abbrev pub ◌>>=◌ : {A : Type 0} → Part → (Bytes → Option A) → Option A
none >>= f = none
some s >>= f = f s

-- `"INFO" ":" "kind[" body "]"`
unfoldable pub info : String → Bytes → Bytes
info kind body = codes "INFO:" ++ (codes kind ++ b'[' ∷ (body ++ b']' ∷ []))

-- The components behind the first, each under the `#ifdef` of the one before it.
unfoldable pub dotted : List (Option Part) → Part
dotted [] = some []
dotted (none ∷ parts) = some []
dotted (some part ∷ parts) =
    part >>= λ digits. dotted parts >>= λ rest. some (b'.' ∷ (digits ++ rest))

abbrev pub versioned : String → Part → List (Option Part) → Part
versioned kind major parts =
    major >>= λ digits. dotted parts >>= λ rest. some (info kind (digits ++ rest))

-- An array that is there or not, and that compiles or not.
abbrev pub optional : Option Part → (Part → Part) → Option (Option Bytes)
optional none f = some none
optional (some part) f = f part >>= λ s. some (some s)

abbrev pub info_version : Identity → Option (Option Bytes)
info_version i = elim i.version [
  | some part ↦ part >>= λ s. some (some (info "compiler_version" s))
  | none ↦
      optional i.major
        (λ part. versioned "compiler_version" part (i.minor ∷ i.patch ∷ i.tweak ∷ []))
]

abbrev pub internal_part : Identity → Option Part
internal_part i = elim i.internal [ some part ↦ some part | none ↦ i.internal_str ]

abbrev pub info_version_internal : Identity → Option (Option Bytes)
info_version_internal i =
    optional (internal_part i) (λ part. part >>= λ s. some (info "compiler_version_internal" s))

abbrev pub info_simulate_version : Identity → Option (Option Bytes)
info_simulate_version i = optional i.simulate_major (λ part.
    versioned "simulate_version" part (i.simulate_minor ∷ i.simulate_patch ∷ i.simulate_tweak ∷ []))

abbrev pub info_simulate : Identity → Option Bytes
info_simulate i = elim i.simulate_id [ none ↦ none | some id ↦ some (info "simulate" id) ]

-- The arrays in the order of the source.
pub record Arrays : Type 0 where
  pub info_compiler : Bytes
  pub simulate : Option Bytes
  pub qnxnto : Option Bytes
  pub info_cray : Option Bytes
  pub version : Option Bytes
  pub version_internal : Option Bytes
  pub simulate_version : Option Bytes
  pub info_platform : Bytes
  pub info_arch : Bytes
  pub standard_default : Bytes
  pub extensions_default : Bytes

infixl 5 ◌then_array◌
abbrev pub ◌then_array◌ :
    {A : Type 0} → Option (Option Bytes) → (Option Bytes → Option A) → Option A
none then_array f = none
some s then_array f = f s

abbrev pub arrays_with :
    Macros → Identity → Bytes → Option Bytes → Option Bytes → Option Bytes → Arrays
arrays_with m i standard version internal simulated = record {
  info_compiler = info "compiler" i.compiler_id;
  simulate = info_simulate i;
  qnxnto = some (info "qnxnto" []) under defined m "__QNXNTO__";
  info_cray =
      some (info "compiler_wrapper" (codes "CrayPrgEnv"))
      under defined m "__CRAYXT_COMPUTE_LINUX_TARGET";
  version = version;
  version_internal = internal;
  simulate_version = simulated;
  info_platform = info "platform" (platform_id m);
  info_arch = info "arch" (architecture_id m);
  standard_default = info "standard_default" standard;
  extensions_default = info "extensions_default" (extensions_name m);
}

-- The arrays, where the body of `standard_default[…]` is `standard`.
abbrev pub arrays_of : Macros → Identity → Bytes → Option Arrays
arrays_of m i standard = info_version i then_array λ version.
    info_version_internal i then_array λ internal. info_simulate_version i then_array λ simulated.
    some (arrays_with m i standard version internal simulated)

-- The translation of the source: none where it stops at `#error` or at an array.
unfoldable pub translate : Macros → Option Arrays
translate m =
    if defined m "__cplusplus" then arrays_of m (identify m) (standard_name (cxx_std m)) else none

abbrev pub listed : Option Bytes → List Bytes
listed none = []
listed (some s) = s ∷ []

-- The arrays that `main` reads, in its order: the version under `#ifdef COMPILER_VERSION_MAJOR`.
unfoldable pub read_by_main : Identity → Arrays → List Bytes
read_by_main i a =
    a.info_compiler
    ∷ a.info_platform
    ∷ a.info_arch
    ∷ (listed (a.version under is_some i.major)
        ++ (listed a.version_internal
            ++ (listed a.simulate
                ++ (listed a.simulate_version
                    ++ (listed a.info_cray ++ a.standard_default ∷ a.extensions_default ∷ [])))))

-- `require += array[argc]` for each; none where it reads behind the `'\0'` of an array.
unfoldable pub sum_at : ℕ → List Bytes → Option ℕ
sum_at argc [] = some 0
sum_at argc (s ∷ arrays) = elim (get_elem? (s ++ 0 ∷ []) argc) [
  | none ↦ none
  | some c ↦ elim (sum_at argc arrays) [ none ↦ none | some n ↦ some (c + n) ]
]

unfoldable pub main : Macros → Arrays → ℕ → Option ℕ
unfolding sum_at read_by_main
main m arrays argc = sum_at argc (read_by_main (identify m) arrays)
