-- ===== src/Probe/Arrays/Bounds.antt =====
-- `main` reads inside the strings where it is called with fewer than five arguments.
use Prim.Native.String.{String}
use mathlib.Core.Path.{subst}
use distributed_kvstore.Prelude.{
  ℕ, zero, suc, ◌*◌, ◌<◌, ◌≤◌, ◌≡◌, refl, ap, Bool, true, false, Option, none, some, List, [], ◌∷◌,
  ◌++◌, Bytes, codes, get_elem?, length, All, arith, Option-cases, inl, inr, Bool-cases,
}
use distributed_kvstore.Probe.{Macros, Identity, Part, ◌under◌, is_some, defined}
use distributed_kvstore.Probe.Compilers.{identify}
use distributed_kvstore.Probe.Standard.{cxx_std, standard_name}
use distributed_kvstore.Probe.Arrays.{
  Arrays, arrays_of, arrays_with, info, translate, main, sum_at, read_by_main, versioned, dotted,
  optional, listed, ◌>>=◌, info_version, info_version_internal, info_simulate_version,
  info_simulate, ◌then_array◌, internal_part,
}

-- The first five bytes of every string.
abbrev pub prefix_at : ℕ → ℕ
prefix_at zero = b'I'
prefix_at (suc zero) = b'N'
prefix_at (suc (suc zero)) = b'F'
prefix_at (suc (suc (suc zero))) = b'O'
prefix_at (suc (suc (suc (suc n)))) = b':'

record IsInfo (s : Bytes) : Type 0 where
  at : (i : ℕ) → i < 5 → get_elem? (s ++ 0 ∷ []) i ≡ some (prefix_at i)

info-IsInfo : (kind : String) (body : Bytes) → IsInfo (info kind body)
unfolding info
info-IsInfo kind body = record { at = at_prefix }
  where
    at_prefix : (i : ℕ) → i < 5 → get_elem? (info kind body ++ 0 ∷ []) i ≡ some (prefix_at i)
    at_prefix zero h = refl
    at_prefix (suc zero) h = refl
    at_prefix (suc (suc zero)) h = refl
    at_prefix (suc (suc (suc zero))) h = refl
    at_prefix (suc (suc (suc (suc zero)))) h = refl
    at_prefix (suc (suc (suc (suc (suc n))))) h = absurd (omega arith)

sum_at-IsInfo :
    (i : ℕ) (arrays : List Bytes)
    → i < 5
    → All IsInfo arrays
    → sum_at i arrays ≡ some (length arrays * prefix_at i)
unfolding sum_at
sum_at-IsInfo i [] lt h = ap some (omega arith)
sum_at-IsInfo i (s ∷ arrays) lt (hs, h) =
    rw (hs.at i lt, sum_at) (rw (sum_at-IsInfo i arrays lt h) (ap some (grind arith)))

-- An array that is there is a string of that form.
abbrev IfInfo : Option Bytes → Type 0
IfInfo none = Unit
IfInfo (some s) = IsInfo s

wrapped-IfInfo :
    (kind : String) (part : Part) (y : Option Bytes)
    → (part >>= λ s. some (some (info kind s))) ≡ some y
    → IfInfo y
wrapped-IfInfo kind none y h = cc
wrapped-IfInfo kind (some s) y h =
    let e : some (info kind s) ≡ y = cc in subst IfInfo e (info-IsInfo kind s)

versioned-IfInfo :
    (kind : String) (major : Part) (parts : List (Option Part))
    → IfInfo (versioned kind major parts)
versioned-IfInfo kind none parts = tt
versioned-IfInfo kind (some digits) parts = elim (Option-cases (dotted parts)) [
  | inl e ↦ rw e tt
  | inr (rest, e) ↦ rw e (info-IsInfo kind (digits ++ rest))
]

there-IfInfo :
    (part : Part) (y : Option Bytes)
    → IfInfo part
    → (part >>= λ s. some (some s)) ≡ some y
    → IfInfo y
there-IfInfo none y h e = cc
there-IfInfo (some s) y h e = let e' : some s ≡ y = cc in subst IfInfo e' h

optional-IfInfo :
    (o : Option Part) (f : Part → Part) (y : Option Bytes)
    → ((part : Part) → IfInfo (f part))
    → optional o f ≡ some y
    → IfInfo y
optional-IfInfo none f y hf h = let e : none ≡ y = cc in subst IfInfo e tt
optional-IfInfo (some part) f y hf h = there-IfInfo (f part) y (hf part) h

module _ (i : Identity) (y : Option Bytes) where
  info_version-IfInfo : info_version i ≡ some y → IfInfo y
  info_version-IfInfo h = elim (Option-cases i.version) [
    | inr (part, e) ↦ wrapped-IfInfo "compiler_version" part y (rw e at h)
    | inl e ↦
        optional-IfInfo i.major _ y (λ part. versioned-IfInfo "compiler_version" part _) (rw e at h)
  ]

  info_version_internal-IfInfo : info_version_internal i ≡ some y → IfInfo y
  info_version_internal-IfInfo h = optional-IfInfo (internal_part i) _ y wrapped h
    where
      wrapped : (part : Part) → IfInfo (part >>= λ s. some (info "compiler_version_internal" s))
      wrapped none = tt
      wrapped (some s) = info-IsInfo "compiler_version_internal" s

  info_simulate_version-IfInfo : info_simulate_version i ≡ some y → IfInfo y
  info_simulate_version-IfInfo h =
      optional-IfInfo i.simulate_major _ y (λ part. versioned-IfInfo "simulate_version" part _) h

info_simulate-IfInfo : (i : Identity) → IfInfo (info_simulate i)
info_simulate-IfInfo i = elim (Option-cases i.simulate_id) [
  | inl e ↦ rw e tt
  | inr (id, e) ↦ rw e (info-IsInfo "simulate" id)
]

under-IfInfo : (x : Option Bytes) (b : Bool) → IfInfo x → IfInfo (x under b)
under-IfInfo x true h = h
under-IfInfo x false h = tt

-- Arrays of that form, of a number between two bounds.
abbrev Reads : ℕ → ℕ → List Bytes → Type 0
Reads low high l = All IsInfo l × (low ≤ length l) × (length l ≤ high)

listed-Reads :
    (low high : ℕ) (x : Option Bytes) (l : List Bytes)
    → IfInfo x
    → Reads low high l
    → Reads low (suc high) (listed x ++ l)
listed-Reads low high none l h (p, at_least, at_most) = (p, at_least, omega arith)
listed-Reads low high (some s) l h (p, at_least, at_most) = ((h, p), omega arith, omega arith)

record AreInfo (i : Identity) (a : Arrays) : Type 0 where
  compiler : IsInfo a.info_compiler
  platform : IsInfo a.info_platform
  arch : IsInfo a.info_arch
  standard : IsInfo a.standard_default
  extensions : IsInfo a.extensions_default
  version : IfInfo a.version
  internal : IfInfo a.version_internal
  simulate : IfInfo a.simulate
  simulated : IfInfo a.simulate_version
  cray : IfInfo a.info_cray

pub then_array-some :
    {A : Type 0} (x : Option (Option Bytes)) (f : Option Bytes → Option A) (a : A)
    → (x then_array f) ≡ some a
    → (y : Option Bytes) × (x ≡ some y) × (f y ≡ some a)
then_array-some none f a h = cc
then_array-some (some y) f a h = (y, refl, h)

arrays_of-AreInfo :
    (m : Macros) (i : Identity) (standard : Bytes) (a : Arrays)
    → arrays_of m i standard ≡ some a
    → AreInfo i a
arrays_of-AreInfo m i standard a h =
    let (version, e, h) = then_array-some (info_version i) _ a h in
    let (internal, e', h) = then_array-some (info_version_internal i) _ a h in
    let (simulated, e'', h) = then_array-some (info_simulate_version i) _ a h in
    let same : arrays_with m i standard version internal simulated ≡ a = cc in
    subst (AreInfo i) same (record {
      compiler = info-IsInfo "compiler" _;
      platform = info-IsInfo "platform" _;
      arch = info-IsInfo "arch" _;
      standard = info-IsInfo "standard_default" _;
      extensions = info-IsInfo "extensions_default" _;
      version = info_version-IfInfo i version e;
      internal = info_version_internal-IfInfo i internal e';
      simulate = info_simulate-IfInfo i;
      simulated = info_simulate_version-IfInfo i simulated e'';
      cray =
          under-IfInfo (some (info "compiler_wrapper" (codes "CrayPrgEnv")))
            (defined m "__CRAYXT_COMPUTE_LINUX_TARGET")
            (info-IsInfo "compiler_wrapper" (codes "CrayPrgEnv"));
    })

read_by_main-Reads : (i : Identity) (a : Arrays) → AreInfo i a → Reads 5 10 (read_by_main i a)
unfolding read_by_main
read_by_main-Reads i a h =
    let (p, at_least, at_most) =
      listed-Reads 2 6 (a.version under is_some i.major) _ (under-IfInfo _ _ h.version) (
        listed-Reads 2 5 a.version_internal _ h.internal (
          listed-Reads 2 4 a.simulate _ h.simulate (
            listed-Reads 2 3 a.simulate_version _ h.simulated (
              listed-Reads 2 2 a.info_cray (a.standard_default ∷ a.extensions_default ∷ []) h.cray
                ((h.standard, (h.extensions, tt)), omega arith, omega arith))))) in
    ((h.compiler, (h.platform, (h.arch, p))), omega arith, omega arith)

-- Arrays that are there are read at one place of `INFO:`.
pub sum_at-bounded :
    (m : Macros) (i : Identity) (standard : Bytes) (a : Arrays) (argc : ℕ)
    → arrays_of m i standard ≡ some a
    → argc < 5
    → (count : ℕ) × (sum_at argc (read_by_main i a) ≡ some (count * prefix_at argc))
      × (5 ≤ count)
      × (count ≤ 10)
sum_at-bounded m i standard a argc h lt =
    let (p, low, high) = read_by_main-Reads i a (arrays_of-AreInfo m i standard a h) in
    (length (read_by_main i a), sum_at-IsInfo argc (read_by_main i a) lt p, low, high)

-- Where the source compiles and `main` is called with fewer than five arguments, it reads inside its
-- strings only, and returns five to ten times the byte of `INFO:` at that place.
pub main-bounded :
    (m : Macros) (a : Arrays) (argc : ℕ)
    → translate m ≡ some a
    → argc < 5
    → (count : ℕ) × (main m a argc ≡ some (count * prefix_at argc)) × (5 ≤ count) × (count ≤ 10)
unfolding translate main
main-bounded m a argc h lt = elim (Bool-cases (defined m "__cplusplus")) [
  | inl e ↦ sum_at-bounded m (identify m) (standard_name (cxx_std m)) a argc (rw e at h) lt
  | inr e ↦ let h' : none ≡ some a = rw e at h in absurd (cc)
]
