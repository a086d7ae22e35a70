-- ===== src/Tests/Probes.antt =====
-- Runs of the compiler probe, and its theorems at concrete inputs.
use Prim.Native.String.{String}
use distributed_kvstore.Prelude.{
  ℕ, ◌*◌, ◌≡◌, ◌≤◌, refl, none, some, List, [], ◌∷◌, codes, arith, if◌then◌else◌, inr,
}
use distributed_kvstore.Text.{bytes_dec, ◌==◌}
use distributed_kvstore.Probe.{number, Macros, dec_digits, hex_digits}
use distributed_kvstore.Probe.Compilers.{select, identify}
use distributed_kvstore.Probe.Arrays.{Arrays, translate, main, info, dotted}
use distributed_kvstore.Probe.Platforms.{platform_id, any_defined, pick}
use distributed_kvstore.Probe.Architectures.{architecture_id}
use distributed_kvstore.Probe.Standard.{cxx_std, standard_name, extensions_name}
use distributed_kvstore.Probe.CProbe.{c_translate, c_identify, c_version}
use distributed_kvstore.Probe.CProbe.Chains.{for_cpp}
use distributed_kvstore.Probe.CProbe.Objects.{same_objects}
use distributed_kvstore.Probe.Arrays.Bounds.{main-bounded}

-- The macros of a list.
abbrev predefined : List (String × ℕ) → Macros
predefined [] name = none
predefined ((other, n) ∷ rest) name =
    if codes other == codes name then some (number n) else predefined rest name

abbrev gcc : Macros
gcc = predefined (
    ("__cplusplus", 201703)
    ∷ ("__GNUC__", 13)
    ∷ ("__GNUC_MINOR__", 2)
    ∷ ("__GNUC_PATCHLEVEL__", 0)
    ∷ ("__linux__", 1)
    ∷ ("__x86_64__", 1)
    ∷ [])

abbrev apple : Macros
apple = predefined (
    ("__cplusplus", 199711)
    ∷ ("__clang__", 1)
    ∷ ("__apple_build_version__", 17000013)
    ∷ ("__clang_major__", 17)
    ∷ ("__clang_minor__", 0)
    ∷ ("__clang_patchlevel__", 0)
    ∷ ("__GNUC__", 4)
    ∷ ("__APPLE__", 1)
    ∷ ("__STRICT_ANSI__", 1)
    ∷ [])

gcc_id : (identify gcc).compiler_id ≡ codes "GNU"
unfolding identify bytes_dec select
gcc_id = refl

apple_id : (identify apple).compiler_id ≡ codes "AppleClang"
unfolding identify bytes_dec select
apple_id = refl

abbrev gcc_arrays : Arrays
gcc_arrays = record {
  info_compiler = codes "INFO:compiler[GNU]";
  simulate = none;
  qnxnto = none;
  info_cray = none;
  version = some (codes "INFO:compiler_version[00000013.00000002.00000000]");
  version_internal = none;
  simulate_version = none;
  info_platform = codes "INFO:platform[Linux]";
  info_arch = codes "INFO:arch[]";
  standard_default = codes "INFO:standard_default[17]";
  extensions_default = codes "INFO:extensions_default[ON]";
}

gcc_translation : translate gcc ≡ some gcc_arrays
unfolding translate identify bytes_dec select dec_digits dotted info platform_id architecture_id
    cxx_std standard_name extensions_name any_defined pick
gcc_translation = refl

hex_above_nine : hex_digits 0xAB ≡ codes "000000:;"
unfolding hex_digits
hex_above_nine = refl

main-bounded_example :
    (count : ℕ) × (main gcc gcc_arrays 1 ≡ some (count * b'N')) × (5 ≤ count) × (count ≤ 10)
main-bounded_example = main-bounded gcc gcc_arrays 1 gcc_translation (omega arith)

-- GCC's macros for C, without those of its platform.
abbrev gcc_c : Macros
gcc_c = predefined (
    ("__STDC__", 1)
    ∷ ("__STDC_VERSION__", 201710)
    ∷ ("__GNUC__", 13)
    ∷ ("__GNUC_MINOR__", 2)
    ∷ ("__linux__", 1)
    ∷ [])

abbrev gcc_c_arrays : Arrays
gcc_c_arrays = record {
  info_compiler = codes "INFO:compiler[GNU]";
  simulate = none;
  qnxnto = none;
  info_cray = none;
  version = some (codes "INFO:compiler_version[00000013.00000002]");
  version_internal = none;
  simulate_version = none;
  info_platform = codes "INFO:platform[Linux]";
  info_arch = codes "INFO:arch[]";
  standard_default = codes "INFO:standard_default[17]";
  extensions_default = codes "INFO:extensions_default[ON]";
}

gcc_c_translation : c_translate gcc_c ≡ some gcc_c_arrays
unfolding c_translate c_identify c_version bytes_dec select dec_digits dotted info platform_id
    architecture_id extensions_name any_defined pick
gcc_c_translation = refl

same_objects_example :
    let cpp = for_cpp (number 201703) (some (number 13)) gcc_c in
    translate cpp
    ≡ some (record gcc_c_arrays {
      standard_default = info "standard_default" (standard_name (cxx_std cpp));
    })
unfolding bytes_dec
same_objects_example =
    same_objects gcc_c (number 201703) (some (number 13)) refl (inr refl)
      (
        refl,
        (refl, (refl, (refl, (refl, (refl, (refl, (refl, (refl, (refl, (refl, (refl, tt))))))))))),
      )
      gcc_c_arrays gcc_c_translation
