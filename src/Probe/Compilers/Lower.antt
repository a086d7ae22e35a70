-- ===== src/Probe/Compilers/Lower.antt =====
-- The chain of compilers, from `AppleClang` to `IAR`, and the platform behind it.
use Prim.Native.String.{String}
use distributed_kvstore.Prelude.{
  ◌-◌, ◌*◌, ◌/◌, ◌%◌, ◌^◌, Bool, ◌&&◌, ◌||◌, some, codes, leb, if◌then◌else◌,
}
use distributed_kvstore.Probe.{
  Macros, defined, value, dec, same, ◌under◌, Identity, Branch, three, simulate_msvc,
}

-- What the compilers that are Clang define.
abbrev clang_version : Macros → Identity → Identity
clang_version m i =
    let v =
      three i (same m "__clang_major__") (same m "__clang_minor__")
        (same m "__clang_patchlevel__") in
    simulate_msvc m (record v { simulate_id = some (codes "MSVC") under defined m "_MSC_VER" })

abbrev pub apple_clang : Branch
apple_clang = record {
  test = λ m. defined m "__clang__" && defined m "__apple_build_version__";
  name = "AppleClang";
  defines =
      λ m i. let v = clang_version m i in record v { tweak = same m "__apple_build_version__" };
}

abbrev pub arm_clang : Branch
arm_clang = record {
  test = λ m. defined m "__clang__" && defined m "__ARMCOMPILER_VERSION";
  name = "ARMClang";
  defines = λ m i.
      let n : String = "__ARMCOMPILER_VERSION" in
      let v =
        three i (dec m n (λ x. x / 1000000)) (dec m n (λ x. x / 10000 % 100))
          (dec m n (λ x. x / 100 % 100)) in
      record v { internal = same m n };
}

abbrev pub ti_clang : Branch
ti_clang = record {
  test = λ m. defined m "__clang__" && defined m "__ti__";
  name = "TIClang";
  defines = λ m i.
      let v =
        three i (same m "__ti_major__") (same m "__ti_minor__") (same m "__ti_patchlevel__") in
      record v { internal = same m "__ti_version__" };
}

abbrev pub clang : Branch
clang = record { test = λ m. defined m "__clang__"; name = "Clang"; defines = clang_version }

abbrev pub lcc : Branch
lcc = record {
  test = λ m.
      defined m "__LCC__" && (defined m "__GNUC__" || defined m "__GNUG__" || defined m "__MCST__");
  name = "LCC";
  defines = λ m i.
      let v =
        three i (dec m "__LCC__" (λ x. x / 100)) (dec m "__LCC__" (λ x. x % 100))
          (same m "__LCC_MINOR__" under defined m "__LCC_MINOR__") in
      if defined m "__GNUC__" && defined m "__GNUC_MINOR__"
      then record v {
        simulate_id = some (codes "GNU");
        simulate_major = same m "__GNUC__";
        simulate_minor = same m "__GNUC_MINOR__";
        simulate_patch = same m "__GNUC_PATCHLEVEL__" under defined m "__GNUC_PATCHLEVEL__";
      }
      else v;
}

abbrev pub gnu : Branch
gnu = record {
  test = λ m. defined m "__GNUC__" || defined m "__GNUG__";
  name = "GNU";
  defines = λ m i.
      three i (if defined m "__GNUC__" then same m "__GNUC__" else same m "__GNUG__")
        (same m "__GNUC_MINOR__" under defined m "__GNUC_MINOR__")
        (same m "__GNUC_PATCHLEVEL__" under defined m "__GNUC_PATCHLEVEL__");
}

-- `_MSC_VER = VVRR`; `_MSC_FULL_VER` is VVRRPPPPP from 1400 on, and VVRRPPPP before.
abbrev pub msvc : Branch
msvc = record {
  test = λ m. defined m "_MSC_VER";
  name = "MSVC";
  defines = λ m i.
      let n : String = "_MSC_FULL_VER" in
      let v = three i (dec m "_MSC_VER" (λ x. x / 100)) (dec m "_MSC_VER" (λ x. x % 100)) (
        (if leb 1400 (value m "_MSC_VER")
          then dec m n (λ x. x % 100000)
          else dec m n (λ x. x % 10000))
        under defined m n) in
      record v { tweak = same m "_MSC_BUILD" under defined m "_MSC_BUILD" };
}

-- `__VERSIONNUM__ = 0xVVRRPPTT`
abbrev pub adsp : Branch
adsp = record {
  test = λ m. defined m "_ADI_COMPILER";
  name = "ADSP";
  defines = λ m i.
      let n : String = "__VERSIONNUM__" in
      if defined m n
      then (let v =
            three i (dec m n (λ x. x / 2 ^ 24 % 2 ^ 8)) (dec m n (λ x. x / 2 ^ 16 % 2 ^ 8))
              (dec m n (λ x. x / 2 ^ 8 % 2 ^ 8)) in
          record v { tweak = dec m n (λ x. x % 2 ^ 8) })
      else i;
}

-- The processors whose compilers count the version in hundreds.
abbrev iar_small : Macros → Bool
iar_small m =
    defined m "__ICCAVR__"
    || defined m "__ICCRX__"
    || defined m "__ICCRH850__"
    || defined m "__ICCRL78__"
    || defined m "__ICC430__"
    || defined m "__ICCRISCV__"
    || defined m "__ICCV850__"
    || defined m "__ICC8051__"
    || defined m "__ICCSTM8__"

abbrev pub iar : Branch
iar = record {
  test = λ m. defined m "__IAR_SYSTEMS_ICC__" || defined m "__IAR_SYSTEMS_ICC";
  name = "IAR";
  defines = λ m i.
      let n : String = "__VER__" in
      if defined m n && defined m "__ICCARM__"
      then (let v =
            three i (dec m n (λ x. x / 1000000)) (dec m n (λ x. x / 1000 % 1000))
              (dec m n (λ x. x % 1000)) in
          record v { internal = same m "__IAR_SYSTEMS_ICC__" })
      else if defined m n && iar_small m
      then (let v =
            three i (dec m n (λ x. x / 100)) (dec m n (λ x. x - x / 100 * 100))
              (same m "__SUBVERSION__") in
          record v { internal = same m "__IAR_SYSTEMS_ICC__" })
      else i;
}

-- A platform that has no other compiler.
abbrev pub hp_native : Branch
hp_native = record {
  test = λ m. defined m "__hpux" || defined m "__hpua";
  name = "HP";
  defines = λ m i. i;
}
