-- ===== src/Probe/Compilers/Upper.antt =====
-- The chain of compilers, from `Intel` to `Compaq`.
use Prim.Native.String.{String}
use distributed_kvstore.Prelude.{
  ◌-◌, ◌/◌, ◌%◌, ◌^◌, Bool, ◌&&◌, ◌||◌, none, some, codes, ltb, leb, ◌==◌, if◌then◌else◌,
}
use distributed_kvstore.Probe.{
  Macros, defined, value, dec, hex, dec_digits, same, ◌under◌, ◌over◌, Identity, Branch, three,
}

-- What the two Intel compilers simulate: the definitions for `__GNUC__` come behind those for
-- `_MSC_VER`, and replace them.
abbrev simulate_id : Macros → Identity → Identity
simulate_id m i = record i {
  simulate_id =
      (some (codes "GNU") under defined m "__GNUC__")
      over (some (codes "MSVC") under defined m "_MSC_VER");
}

abbrev simulate_version : Macros → Identity → Identity
simulate_version m i = record i {
  simulate_major =
      (same m "__GNUC__" under defined m "__GNUC__")
      over (same m "__GNUG__" under defined m "__GNUG__")
      over (dec m "_MSC_VER" (λ n. n / 100) under defined m "_MSC_VER");
  simulate_minor =
      (same m "__GNUC_MINOR__" under defined m "__GNUC_MINOR__")
      over (dec m "_MSC_VER" (λ n. n % 100) under defined m "_MSC_VER");
  simulate_patch = same m "__GNUC_PATCHLEVEL__" under defined m "__GNUC_PATCHLEVEL__";
}

-- `__INTEL_COMPILER` is VRP before 2021, and VVVV from then on.
abbrev intel_is_old : Macros → Bool
intel_is_old m =
    ltb (value m "__INTEL_COMPILER") 2021
    || value m "__INTEL_COMPILER" == 202110
    || value m "__INTEL_COMPILER" == 202111

abbrev intel_version : Macros → Identity → Identity
intel_version m i =
    if intel_is_old m
    then three i (dec m "__INTEL_COMPILER" (λ n. n / 100))
        (dec m "__INTEL_COMPILER" (λ n. n / 10 % 10))
        (if defined m "__INTEL_COMPILER_UPDATE"
          then same m "__INTEL_COMPILER_UPDATE"
          else dec m "__INTEL_COMPILER" (λ n. n % 10))
    else three i (same m "__INTEL_COMPILER") (same m "__INTEL_COMPILER_UPDATE")
        (some (some (dec_digits 0)))

abbrev pub intel : Branch
intel = record {
  test = λ m. defined m "__INTEL_COMPILER" || defined m "__ICC";
  name = "Intel";
  defines = λ m i.
      let v = intel_version m (simulate_version m (simulate_id m i)) in
      record v {
        tweak = same m "__INTEL_COMPILER_BUILD_DATE" under defined m "__INTEL_COMPILER_BUILD_DATE";
      };
}

-- `__INTEL_LLVM_COMPILER` has six digits before 2021.2.0, and eight from then on.
abbrev pub intel_llvm : Branch
intel_llvm = record {
  test = λ m.
      (defined m "__clang__" && defined m "__INTEL_CLANG_COMPILER")
      || defined m "__INTEL_LLVM_COMPILER";
  name = "IntelLLVM";
  defines = λ m i.
      let v = simulate_version m (simulate_id m i) in
      let n : String = "__INTEL_LLVM_COMPILER" in
      if ltb (value m n) 1000000
      then three v (dec m n (λ x. x / 100)) (dec m n (λ x. x / 10 % 10)) (dec m n (λ x. x % 10))
      else three v (dec m n (λ x. x / 10000)) (dec m n (λ x. x / 100 % 100))
          (dec m n (λ x. x % 100));
}

abbrev pub path_scale : Branch
path_scale = record {
  test = λ m. defined m "__PATHCC__";
  name = "PathScale";
  defines = λ m i.
      three i (same m "__PATHCC__") (same m "__PATHCC_MINOR__")
        (same m "__PATHCC_PATCHLEVEL__" under defined m "__PATHCC_PATCHLEVEL__");
}

abbrev pub embarcadero : Branch
embarcadero = record {
  test = λ m. defined m "__BORLANDC__" && defined m "__CODEGEARC_VERSION__";
  name = "Embarcadero";
  defines = λ m i.
      let n : String = "__CODEGEARC_VERSION__" in
      three i (hex m n (λ x. x / 2 ^ 24 % 2 ^ 8)) (hex m n (λ x. x / 2 ^ 16 % 2 ^ 8))
        (dec m n (λ x. x % 2 ^ 16));
}

-- `__BORLANDC__ = 0xVRR`
abbrev pub borland : Branch
borland = record {
  test = λ m. defined m "__BORLANDC__";
  name = "Borland";
  defines = λ m i.
      three i (hex m "__BORLANDC__" (λ x. x / 2 ^ 8)) (hex m "__BORLANDC__" (λ x. x % 2 ^ 8)) none;
}

-- The last digit of `__WATCOMC__`, if it is not 0.
abbrev watcom_patch : Macros → Identity → Identity
watcom_patch m i = record i {
  patch = dec m "__WATCOMC__" (λ x. x % 10) under ltb 0 (value m "__WATCOMC__" % 10);
}

-- `__WATCOMC__ = VVRR`
abbrev pub watcom : Branch
watcom = record {
  test = λ m. defined m "__WATCOMC__" && ltb (value m "__WATCOMC__") 1200;
  name = "Watcom";
  defines = λ m i.
      watcom_patch m (
        three i (dec m "__WATCOMC__" (λ x. x / 100)) (dec m "__WATCOMC__" (λ x. x / 10 % 10)) none);
}

-- `__WATCOMC__ = VVRP + 1100`, and 1200 at least.
abbrev pub open_watcom : Branch
open_watcom = record {
  test = λ m. defined m "__WATCOMC__";
  name = "OpenWatcom";
  defines = λ m i. watcom_patch m (
      three i (dec m "__WATCOMC__" (λ x. (x - 1100) / 100)) (dec m "__WATCOMC__" (λ x. x / 10 % 10))
        none);
}

-- `__SUNPRO_CC` is 0xVRRP from 0x5100 on, and 0xVRP before.
abbrev pub sun_pro_version : String → Macros → Identity → Identity
sun_pro_version n m i =
    if leb 0x5100 (value m n)
    then three i (hex m n (λ x. x / 2 ^ 12)) (hex m n (λ x. x / 2 ^ 4 % 2 ^ 8))
        (hex m n (λ x. x % 2 ^ 4))
    else three i (hex m n (λ x. x / 2 ^ 8)) (hex m n (λ x. x / 2 ^ 4 % 2 ^ 4))
        (hex m n (λ x. x % 2 ^ 4))

abbrev pub sun_pro : Branch
sun_pro = record {
  test = λ m. defined m "__SUNPRO_CC";
  name = "SunPro";
  defines = sun_pro_version "__SUNPRO_CC";
}

-- `__HP_aCC = VVRRPP`
abbrev pub hp_version : String → Macros → Identity → Identity
hp_version n m i =
    three i (dec m n (λ x. x / 10000)) (dec m n (λ x. x / 100 % 100)) (dec m n (λ x. x % 100))

abbrev pub hp : Branch
hp = record { test = λ m. defined m "__HP_aCC"; name = "HP"; defines = hp_version "__HP_aCC" }

-- `__DECCXX_VER = VVRRTPPPP`
abbrev pub compaq_version : String → Macros → Identity → Identity
compaq_version n m i =
    three i (dec m n (λ x. x / 10000000)) (dec m n (λ x. x / 100000 % 100))
      (dec m n (λ x. x % 10000))

abbrev pub compaq : Branch
compaq = record {
  test = λ m. defined m "__DECCXX";
  name = "Compaq";
  defines = compaq_version "__DECCXX_VER";
}
