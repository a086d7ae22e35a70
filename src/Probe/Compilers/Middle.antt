-- ===== src/Probe/Compilers/Middle.antt =====
-- The chain of compilers, from `zOS` to `ARMCC`.
use distributed_kvstore.Prelude.{◌/◌, ◌%◌, ◌&&◌, none, ltb, leb, if◌then◌else◌}
use mathlib.Core.Bool.{not}
use Prim.Native.String.{String}
use distributed_kvstore.Probe.{
  Macros, defined, value, dec, same, text, ◌under◌, ◌over◌, Identity, Branch, three,
}

-- `__IBMCPP__ = VRP`
abbrev pub ibm_version : String → Macros → Identity → Identity
ibm_version n m i =
    three i (dec m n (λ x. x / 100)) (dec m n (λ x. x / 10 % 10)) (dec m n (λ x. x % 10))

-- A version in macros of its own, with an update level.
abbrev ibm_clang_version : Macros → String → String → String → String → Identity → Identity
ibm_clang_version m version release modification level i =
    let v = three i (same m version) (same m release) (same m modification) in
    record v { tweak = same m level }

abbrev pub z_os : Branch
z_os = record {
  test = λ m. defined m "__IBMCPP__" && defined m "__COMPILER_VER__";
  name = "zOS";
  defines = ibm_version "__IBMCPP__";
}

abbrev pub ibm_clang : Branch
ibm_clang = record {
  test = λ m. defined m "__open_xl__" && defined m "__clang__";
  name = "IBMClang";
  defines = λ m i.
      let v =
        ibm_clang_version m "__open_xl_version__" "__open_xl_release__" "__open_xl_modification__"
          "__open_xl_ptf_fix_level__" i in
      record v { internal_str = text m "__clang_version__" };
}

abbrev pub xl_clang : Branch
xl_clang = record {
  test = λ m. defined m "__ibmxl__" && defined m "__clang__";
  name = "XLClang";
  defines = λ m i.
      ibm_clang_version m "__ibmxl_version__" "__ibmxl_release__" "__ibmxl_modification__"
        "__ibmxl_ptf_fix_level__" i;
}

abbrev pub xl : Branch
xl = record {
  test = λ m.
      defined m "__IBMCPP__"
      && not (defined m "__COMPILER_VER__")
      && leb 800 (value m "__IBMCPP__");
  name = "XL";
  defines = ibm_version "__IBMCPP__";
}

abbrev pub visual_age : Branch
visual_age = record {
  test = λ m.
      defined m "__IBMCPP__"
      && not (defined m "__COMPILER_VER__")
      && ltb (value m "__IBMCPP__") 800;
  name = "VisualAge";
  defines = ibm_version "__IBMCPP__";
}

abbrev pub nvhpc : Branch
nvhpc = record {
  test = λ m. defined m "__NVCOMPILER";
  name = "NVHPC";
  defines = λ m i.
      three i (same m "__NVCOMPILER_MAJOR__") (same m "__NVCOMPILER_MINOR__")
        (same m "__NVCOMPILER_PATCHLEVEL__" under defined m "__NVCOMPILER_PATCHLEVEL__");
}

abbrev pub pgi : Branch
pgi = record {
  test = λ m. defined m "__PGI";
  name = "PGI";
  defines = λ m i.
      three i (same m "__PGIC__") (same m "__PGIC_MINOR__")
        (same m "__PGIC_PATCHLEVEL__" under defined m "__PGIC_PATCHLEVEL__");
}

abbrev pub cray_clang : Branch
cray_clang = record {
  test = λ m. defined m "__clang__" && defined m "__cray__";
  name = "CrayClang";
  defines = λ m i.
      let v =
        three i (same m "__cray_major__") (same m "__cray_minor__")
          (same m "__cray_patchlevel__") in
      record v { internal_str = text m "__clang_version__" };
}

abbrev pub cray : Branch
cray = record {
  test = λ m. defined m "_CRAYC";
  name = "Cray";
  defines = λ m i. three i (same m "_RELEASE_MAJOR") (same m "_RELEASE_MINOR") none;
}

-- `__TI_COMPILER_VERSION__ = VVVRRRPPP`
abbrev pub ti : Branch
ti = record {
  test = λ m. defined m "__TI_COMPILER_VERSION__";
  name = "TI";
  defines = λ m i.
      let n : String = "__TI_COMPILER_VERSION__" in
      three i (dec m n (λ x. x / 1000000)) (dec m n (λ x. x / 1000 % 1000))
        (dec m n (λ x. x % 1000));
}

abbrev pub fujitsu_clang : Branch
fujitsu_clang = record {
  test = λ m. defined m "__CLANG_FUJITSU";
  name = "FujitsuClang";
  defines = λ m i.
      let v =
        three i (same m "__FCC_major__") (same m "__FCC_minor__") (same m "__FCC_patchlevel__") in
      record v { internal_str = text m "__clang_version__" };
}

abbrev pub fujitsu : Branch
fujitsu = record {
  test = λ m. defined m "__FUJITSU";
  name = "Fujitsu";
  defines = λ m i.
      let v =
        if defined m "__FCC_version__"
        then record i { version = text m "__FCC_version__" }
        else if defined m "__FCC_major__"
        then three i (same m "__FCC_major__") (same m "__FCC_minor__") (same m "__FCC_patchlevel__")
        else i in
      record v {
        internal =
            (same m "__fcc_version" under defined m "__fcc_version")
            over (same m "__FCC_VERSION" under defined m "__FCC_VERSION");
      };
}

-- `__GHS_VERSION_NUMBER = VVVVRP`
abbrev pub ghs : Branch
ghs = record {
  test = λ m. defined m "__ghs__";
  name = "GHS";
  defines = λ m i.
      let n : String = "__GHS_VERSION_NUMBER" in
      if defined m n
      then three i (dec m n (λ x. x / 100)) (dec m n (λ x. x / 10 % 10)) (dec m n (λ x. x % 10))
      else i;
}

abbrev pub tasking : Branch
tasking = record {
  test = λ m. defined m "__TASKING__";
  name = "Tasking";
  defines = λ m i.
      let n : String = "__VERSION__" in
      let v = three i (dec m n (λ x. x / 1000)) (dec m n (λ x. x % 100)) none in
      record v { internal = same m n };
}

abbrev pub orange_c : Branch
orange_c = record {
  test = λ m. defined m "__ORANGEC__";
  name = "OrangeC";
  defines = λ m i.
      three i (same m "__ORANGEC_MAJOR__") (same m "__ORANGEC_MINOR__")
        (same m "__ORANGEC_PATCHLEVEL__");
}

abbrev pub sco : Branch
sco = record { test = λ m. defined m "__SCO_VERSION__"; name = "SCO"; defines = λ m i. i }

-- `__ARMCC_VERSION` is VRRPPPP from 1000000 on, and VRPPPP before.
abbrev pub arm_cc : Branch
arm_cc = record {
  test = λ m. defined m "__ARMCC_VERSION" && not (defined m "__clang__");
  name = "ARMCC";
  defines = λ m i.
      let n : String = "__ARMCC_VERSION" in
      if leb 1000000 (value m n)
      then three i (dec m n (λ x. x / 1000000)) (dec m n (λ x. x / 10000 % 100))
          (dec m n (λ x. x % 10000))
      else three i (dec m n (λ x. x / 100000)) (dec m n (λ x. x / 10000 % 10))
          (dec m n (λ x. x % 10000));
}
