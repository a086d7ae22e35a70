-- ===== src/Probe/Standard.antt =====
-- The language standard and the extensions that the compiler takes by default.
use mathlib.Core.Bool.{not}
use distributed_kvstore.Prelude.{ℕ, ◌&&◌, ◌||◌, Bytes, codes, ltb, leb, ◌==◌, if◌then◌else◌}
use distributed_kvstore.Probe.{Macros, defined, value}

abbrev pub cxx_std_98 : ℕ
cxx_std_98 = 199711

abbrev pub cxx_std_11 : ℕ
cxx_std_11 = 201103

abbrev pub cxx_std_14 : ℕ
cxx_std_14 = 201402

abbrev pub cxx_std_17 : ℕ
cxx_std_17 = 201703

abbrev pub cxx_std_20 : ℕ
cxx_std_20 = 202002

abbrev pub cxx_std_23 : ℕ
cxx_std_23 = 202302

-- The first branch, for `__INTEL_COMPILER` with `_MSVC_LANG`.
unfoldable pub intel_msvc_std : Macros → ℕ
intel_msvc_std m =
    let lang = value m "_MSVC_LANG" in
    if ltb cxx_std_17 lang
    then lang
    else if lang == cxx_std_17 && defined m "__cpp_aggregate_paren_init"
    then cxx_std_20
    else if ltb cxx_std_14 lang && ltb cxx_std_17 (value m "__cplusplus")
    then cxx_std_20
    else if ltb cxx_std_14 lang
    then cxx_std_17
    else if defined m "__INTEL_CXX11_MODE__" && defined m "__cpp_aggregate_nsdmi"
    then cxx_std_14
    else if defined m "__INTEL_CXX11_MODE__"
    then cxx_std_11
    else cxx_std_98

-- `CXX_STD`
unfoldable pub cxx_std : Macros → ℕ
unfolding intel_msvc_std
cxx_std m =
    let cplusplus = value m "__cplusplus" in
    let lang = value m "_MSVC_LANG" in
    if defined m "__INTEL_COMPILER" && defined m "_MSVC_LANG"
    then intel_msvc_std m
    else if defined m "_MSC_VER" && defined m "_MSVC_LANG"
    then (if ltb cplusplus lang then lang else cplusplus)
    else if defined m "__NVCOMPILER"
    then (if cplusplus == cxx_std_17 && defined m "__cpp_aggregate_paren_init"
        then cxx_std_20
        else cplusplus)
    else if defined m "__INTEL_COMPILER" || defined m "__PGI"
    then (if cplusplus == cxx_std_11 && defined m "__cpp_namespace_attributes"
        then cxx_std_17
        else if cplusplus == cxx_std_11 && defined m "__cpp_aggregate_nsdmi"
        then cxx_std_14
        else cplusplus)
    else if (defined m "__IBMCPP__" || defined m "__ibmxl__") && defined m "__linux__"
    then (if cplusplus == cxx_std_11 && defined m "__cpp_aggregate_nsdmi"
        then cxx_std_14
        else cplusplus)
    else if cplusplus == 1 && defined m "__GXX_EXPERIMENTAL_CXX0X__"
    then cxx_std_11
    else cplusplus

-- The text in `standard_default[…]`.
unfoldable pub standard_name : ℕ → Bytes
standard_name std =
    if ltb cxx_std_23 std
    then codes "26"
    else if ltb cxx_std_20 std
    then codes "23"
    else if ltb cxx_std_17 std
    then codes "20"
    else if ltb cxx_std_14 std
    then codes "17"
    else if ltb cxx_std_11 std
    then codes "14"
    else if leb cxx_std_11 std
    then codes "11"
    else codes "98"

-- The text in `extensions_default[…]`.
unfoldable pub extensions_name : Macros → Bytes
extensions_name m =
    if (defined m "__clang__"
        || defined m "__GNUC__"
        || defined m "__xlC__"
        || defined m "__TI_COMPILER_VERSION__")
      && not (defined m "__STRICT_ANSI__")
    then codes "ON"
    else codes "OFF"
