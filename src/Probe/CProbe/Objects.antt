-- ===== src/Probe/CProbe/Objects.antt =====
-- What the two probes leave in their object files for one compiler.
use distributed_kvstore.Prelude.{
  ◌≡◌, ◌⊎◌, refl, sym, ap, true, Option, none, some, List, [], ◌∷◌, ◌++◌, Bytes, All, Bool-cases,
  inl, inr,
}
use distributed_kvstore.Text.{bytes_dec}
use distributed_kvstore.Probe.{Value, Macros, Branch, Identity, defined}
use distributed_kvstore.Probe.Compilers.{identify, select, upper, middle, lower}
use distributed_kvstore.Probe.Compilers.Upper.{
  intel, intel_llvm, path_scale, embarcadero, borland, watcom, open_watcom, sun_pro, hp, compaq,
}
use distributed_kvstore.Probe.Compilers.Middle.{
  z_os, ibm_clang, xl_clang, xl, visual_age, nvhpc, pgi, cray_clang, cray, ti, fujitsu_clang,
  fujitsu, ghs, tasking, orange_c, sco, arm_cc,
}
use distributed_kvstore.Probe.Compilers.Lower.{
  apple_clang, arm_clang, ti_clang, clang, lcc, gnu, msvc, adsp, iar, hp_native,
}
use distributed_kvstore.Probe.Platforms.{platform_id, any_defined, pick}
use distributed_kvstore.Probe.Architectures.{architecture_id}
use distributed_kvstore.Probe.Standard.{cxx_std, standard_name, extensions_name}
use distributed_kvstore.Probe.Arrays.{
  Arrays, arrays_with, arrays_of, translate, info, info_version, info_version_internal,
  info_simulate_version,
}
use distributed_kvstore.Probe.Arrays.Bounds.{then_array-some}
use distributed_kvstore.Probe.CProbe.{
  c_upper, c_middle, c_lower, c_identify, c_translate, c_version, c_sun_pro, c_hp, c_compaq, c_z_os,
  c_xl, c_visual_age, tiny_cc, bruce, c_gnu, sdcc,
}
use distributed_kvstore.Probe.CProbe.Chains.{
  own_macros, for_cpp, outcomes, Agree, Agree-prefix, Agree-left, Agree-right, Agree-both,
  same_upper, same_ibm, same_middle, same_clang, same_lower, intel_same, intel_llvm_same, lcc_test,
  gnu_test, gnu_same,
}

module _ (m : Macros) (v : Value) (g : Option Value) (gnug : m "__GNUG__" ≡ none)
    (with_gnuc : g ≡ none ⊎ (defined m "__GNUC__" ≡ true))
    (own : All (λ name. m name ≡ none) own_macros) where
  abbrev n : Macros
  n = for_cpp v g m

  abbrev c_lower_end : List Branch
  c_lower_end = lcc ∷ c_gnu ∷ msvc ∷ adsp ∷ iar ∷ sdcc ∷ hp_native ∷ []

  abbrev cpp_lower_end : List Branch
  cpp_lower_end = lcc ∷ gnu ∷ msvc ∷ adsp ∷ iar ∷ hp_native ∷ []

  lower_ends : Agree m n c_lower_end cpp_lower_end
  unfolding bytes_dec outcomes
  lower_ends =
      let (_, (_, (_, (_, (_, (_, (_, (_, (_, (_, (major, (sdcc_none, _)))))))))))) = own in
      Agree-both m n lcc lcc _ _ (lcc_test m v g gnug with_gnuc) refl (
        Agree-both m n c_gnu gnu _ _ (gnu_test m v g gnug with_gnuc) (gnu_same m v g gnug with_gnuc)
          (Agree-prefix m n (msvc ∷ adsp ∷ iar ∷ []) _ _ (same_lower m v g) (
            Agree-left m n sdcc _ _ (rw (major, sdcc_none) refl)
              (Agree-prefix m n (hp_native ∷ []) [] [] refl (unfold select in refl)))))

  -- From NVHPC on.
  abbrev c_later : List Branch
  c_later =
      nvhpc ∷ pgi ∷ cray_clang ∷ cray ∷ ti ∷ fujitsu_clang ∷ fujitsu ∷ ghs ∷ tasking ∷ orange_c
      ∷ tiny_cc ∷ bruce ∷ sco ∷ arm_cc ∷ apple_clang ∷ arm_clang ∷ ti_clang ∷ clang ∷ c_lower_end

  abbrev cpp_later : List Branch
  cpp_later =
      nvhpc ∷ pgi ∷ cray_clang ∷ cray ∷ ti ∷ fujitsu_clang ∷ fujitsu ∷ ghs ∷ tasking ∷ orange_c
      ∷ sco ∷ arm_cc ∷ apple_clang ∷ arm_clang ∷ ti_clang ∷ clang ∷ cpp_lower_end

  later : Agree m n c_later cpp_later
  later =
      let (_, (_, (_, (_, (_, (_, (_, (_, (tiny, (bcc, _)))))))))) = own in
      Agree-prefix m n
        (nvhpc ∷ pgi ∷ cray_clang ∷ cray ∷ ti ∷ fujitsu_clang ∷ fujitsu ∷ ghs ∷ tasking ∷ orange_c
          ∷ [])
        _ _ (same_middle m v g)
        (Agree-left m n tiny_cc _ _ (rw tiny refl) (
          Agree-left m n bruce _ _ (rw bcc refl) (
            Agree-prefix m n (sco ∷ arm_cc ∷ apple_clang ∷ arm_clang ∷ ti_clang ∷ clang ∷ [])
              c_lower_end cpp_lower_end (same_clang m v g) lower_ends)))

  ibm_branches :
      Agree m n
        (c_z_os ∷ ibm_clang ∷ xl_clang ∷ c_xl ∷ c_visual_age ∷ c_later)
        (z_os ∷ ibm_clang ∷ xl_clang ∷ xl ∷ visual_age ∷ cpp_later)
  unfolding bytes_dec
  ibm_branches =
      let (_, (_, (_, (_, (_, (_, (ibm_c, (ibm, _)))))))) = own in
      Agree-left m n c_z_os _ _ (rw ibm_c refl) (
        Agree-right m n z_os _ _ (rw ibm refl) (
          Agree-prefix m n (ibm_clang ∷ xl_clang ∷ []) _ _ (same_ibm m v g) (
            Agree-left m n c_xl _ _ (rw ibm_c refl) (
              Agree-left m n c_visual_age _ _ (rw ibm_c refl) (
                Agree-right m n xl _ _ (rw ibm refl)
                  (Agree-right m n visual_age _ _ (rw ibm refl) later))))))

  vendor_branches :
      (bs cs : List Branch)
      → Agree m n bs cs
      → Agree m n (c_sun_pro ∷ c_hp ∷ c_compaq ∷ bs) (sun_pro ∷ hp ∷ compaq ∷ cs)
  unfolding bytes_dec
  vendor_branches bs cs h =
      let (sun_c, (sun, (hp_c, (hp_cpp, (dec_c, (dec, _)))))) = own in
      Agree-left m n c_sun_pro _ _ (rw sun_c refl) (
        Agree-left m n c_hp _ _ (rw hp_c refl) (
          Agree-left m n c_compaq _ _ (rw dec_c refl) (
            Agree-right m n sun_pro _ _ (rw sun refl) (
              Agree-right m n hp _ _ (rw hp_cpp refl)
                (Agree-right m n compaq _ _ (rw dec refl) h)))))

  chains : Agree m n (c_upper ++ c_middle ++ c_lower) (upper ++ middle ++ lower)
  unfolding bytes_dec
  chains = Agree-both m n intel intel _ _ refl (intel_same m v g gnug with_gnuc) (
      Agree-both m n intel_llvm intel_llvm _ _ refl (intel_llvm_same m v g gnug with_gnuc) (
        Agree-prefix m n (path_scale ∷ embarcadero ∷ borland ∷ watcom ∷ open_watcom ∷ []) _ _
          (same_upper m v g) (vendor_branches _ _ ibm_branches)))

  c_identify-identify : c_identify m ≡ identify n
  unfolding c_identify identify
  c_identify-identify = chains

  other_standard :
      (i : Identity) (a : Arrays) (s t : Bytes)
      → arrays_of m i s ≡ some a
      → arrays_of n i t ≡ some (record a { standard_default = info "standard_default" t })
  unfolding bytes_dec platform_id pick any_defined architecture_id extensions_name
  other_standard i a s t h =
      let (version, e, h) = then_array-some (info_version i) _ a h in
      let (internal, e', h) = then_array-some (info_version_internal i) _ a h in
      let (simulated, e'', h) = then_array-some (info_simulate_version i) _ a h in
      let same : arrays_with m i s version internal simulated ≡ a = cc in
      rw (e, e', e'')
        (ap (λ (x : Arrays). some (record x { standard_default = info "standard_default" t })) same)

  -- Where the probe for C compiles with the macros of a compiler, the probe for C++ does with the
  -- same macros, `__cplusplus` and possibly `__GNUG__` added, and leaves the same strings but for the
  -- standard. Nothing that one probe alone tests is defined, and `__GNUG__` only with `__GNUC__`.
  pub same_objects :
      (a : Arrays)
      → c_translate m ≡ some a
      → translate n
        ≡ some (record a { standard_default = info "standard_default" (standard_name (cxx_std n)) })
  unfolding c_translate translate bytes_dec
  same_objects a h = elim (Bool-cases (defined m "__cplusplus")) [
    | inl e ↦ let h' : none ≡ some a = rw e at h in absurd (cc)
    | inr e ↦
        rw (sym c_identify-identify)
          (other_standard (c_identify m) a (c_version m) (standard_name (cxx_std n)) (rw e at h))
  ]
