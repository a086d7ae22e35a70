-- ===== src/Probe/CProbe.antt =====
-- CMakeCCompilerId.c under CMakeFiles/4.0.1/CompilerIdC: the probe for the compiler of C. It repeats the
-- probe for C++ but for some branches of the chain, the standard and `main`.
pub mod Chains
pub mod Bounds
pub mod Objects
use Prim.Native.String.{String}
use mathlib.Core.Bool.{not}
use distributed_kvstore.Prelude.{
  ℕ, ◌/◌, ◌%◌, Bool, true, false, ◌&&◌, ◌||◌, Option, none, some, List, [], ◌∷◌, ◌++◌, Bytes, codes,
  ltb, leb, if◌then◌else◌,
}
use distributed_kvstore.Probe.{Macros, Identity, Branch, defined, value, dec, same, three, ◌under◌}
use distributed_kvstore.Probe.Compilers.{select}
use distributed_kvstore.Probe.Compilers.Upper.{
  intel, intel_llvm, path_scale, embarcadero, borland, watcom, open_watcom, sun_pro_version,
  hp_version, compaq_version,
}
use distributed_kvstore.Probe.Compilers.Middle.{
  ibm_version, ibm_clang, xl_clang, nvhpc, pgi, cray_clang, cray, ti, fujitsu_clang, fujitsu, ghs,
  tasking, orange_c, sco, arm_cc,
}
use distributed_kvstore.Probe.Compilers.Lower.{
  apple_clang, arm_clang, ti_clang, clang, lcc, msvc, adsp, iar, hp_native,
}
use distributed_kvstore.Probe.Arrays.{Arrays, arrays_of, read_by_main, sum_at}

abbrev pub c_sun_pro : Branch
c_sun_pro = record {
  test = λ m. defined m "__SUNPRO_C";
  name = "SunPro";
  defines = sun_pro_version "__SUNPRO_C";
}

abbrev pub c_hp : Branch
c_hp = record { test = λ m. defined m "__HP_cc"; name = "HP"; defines = hp_version "__HP_cc" }

abbrev pub c_compaq : Branch
c_compaq = record {
  test = λ m. defined m "__DECC";
  name = "Compaq";
  defines = compaq_version "__DECC_VER";
}

abbrev pub c_z_os : Branch
c_z_os = record {
  test = λ m. defined m "__IBMC__" && defined m "__COMPILER_VER__";
  name = "zOS";
  defines = ibm_version "__IBMC__";
}

abbrev pub c_xl : Branch
c_xl = record {
  test = λ m.
      defined m "__IBMC__" && not (defined m "__COMPILER_VER__") && leb 800 (value m "__IBMC__");
  name = "XL";
  defines = ibm_version "__IBMC__";
}

abbrev pub c_visual_age : Branch
c_visual_age = record {
  test = λ m.
      defined m "__IBMC__" && not (defined m "__COMPILER_VER__") && ltb (value m "__IBMC__") 800;
  name = "VisualAge";
  defines = ibm_version "__IBMC__";
}

abbrev pub tiny_cc : Branch
tiny_cc = record { test = λ m. defined m "__TINYC__"; name = "TinyCC"; defines = λ m i. i }

abbrev pub bruce : Branch
bruce = record { test = λ m. defined m "__BCC__"; name = "Bruce"; defines = λ m i. i }

abbrev pub c_gnu : Branch
c_gnu = record {
  test = λ m. defined m "__GNUC__";
  name = "GNU";
  defines = λ m i.
      three i (same m "__GNUC__") (same m "__GNUC_MINOR__" under defined m "__GNUC_MINOR__")
        (same m "__GNUC_PATCHLEVEL__" under defined m "__GNUC_PATCHLEVEL__");
}

-- `SDCC = VRP`, in the versions without macros for the components.
abbrev pub sdcc : Branch
sdcc = record {
  test = λ m. defined m "__SDCC_VERSION_MAJOR" || defined m "SDCC";
  name = "SDCC";
  defines = λ m i.
      if defined m "__SDCC_VERSION_MAJOR"
      then three i (same m "__SDCC_VERSION_MAJOR") (same m "__SDCC_VERSION_MINOR")
          (same m "__SDCC_VERSION_PATCH")
      else three i (dec m "SDCC" (λ x. x / 100)) (dec m "SDCC" (λ x. x / 10 % 10))
          (dec m "SDCC" (λ x. x % 10));
}

abbrev pub c_upper : List Branch
c_upper =
    intel ∷ intel_llvm ∷ path_scale ∷ embarcadero ∷ borland ∷ watcom ∷ open_watcom ∷ c_sun_pro
    ∷ c_hp ∷ c_compaq ∷ []

abbrev pub c_middle : List Branch
c_middle =
    c_z_os ∷ ibm_clang ∷ xl_clang ∷ c_xl ∷ c_visual_age ∷ nvhpc ∷ pgi ∷ cray_clang ∷ cray ∷ ti
    ∷ fujitsu_clang ∷ fujitsu ∷ ghs ∷ tasking ∷ orange_c ∷ tiny_cc ∷ bruce ∷ sco ∷ arm_cc ∷ []

abbrev pub c_lower : List Branch
c_lower =
    apple_clang ∷ arm_clang ∷ ti_clang ∷ clang ∷ lcc ∷ c_gnu ∷ msvc ∷ adsp ∷ iar ∷ sdcc ∷ hp_native
    ∷ []

unfoldable pub c_identify : Macros → Identity
unfolding select
c_identify m = select m (c_upper ++ c_middle ++ c_lower)

-- `C_STD`: without `__STDC_VERSION__` it is no macro, and counts as 0.
abbrev pub c_std : Macros → ℕ
c_std m = value m "__STDC_VERSION__"

-- `C_VERSION`
unfoldable pub c_version : Macros → Bytes
c_version m =
    if not (defined m "__STDC__") && not (defined m "__clang__")
    then (if defined m "_MSC_VER" || defined m "__ibmxl__" || defined m "__IBMC__"
        then codes "90"
        else [])
    else if ltb 201710 (c_std m)
    then codes "23"
    else if ltb 201112 (c_std m)
    then codes "17"
    else if ltb 199901 (c_std m)
    then codes "11"
    else if leb 199901 (c_std m)
    then codes "99"
    else codes "90"

-- The translation of the source: none where it stops at `#error` or at an array.
unfoldable pub c_translate : Macros → Option Arrays
unfolding c_version
c_translate m = if defined m "__cplusplus" then none else arrays_of m (c_identify m) (c_version m)

-- `main`: none where it reads behind an array; under `ID_VOID_MAIN` it reads nothing, and returns
-- nothing.
unfoldable pub c_main : Macros → Arrays → ℕ → Option (Option ℕ)
unfolding c_identify sum_at read_by_main
c_main m arrays argc =
    if defined m "__18CXX"
    then some none
    else elim (sum_at argc (read_by_main (c_identify m) arrays)) [
      | none ↦ none
      | some n ↦ some (some n)
    ]
