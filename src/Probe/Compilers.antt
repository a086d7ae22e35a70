-- ===== src/Probe/Compilers.antt =====
-- The chain of `#elif` that identifies the compiler: the first branch whose condition holds.
pub mod Clang
pub mod Upper
pub mod Middle
pub mod Lower
use distributed_kvstore.Prelude.{Bool, true, false, List, [], ◌∷◌, ◌++◌, codes, if◌then◌else◌}
use distributed_kvstore.Probe.{Macros, Identity, Branch, identity, unknown}
use distributed_kvstore.Probe.Compilers.Upper.{
  intel, intel_llvm, path_scale, embarcadero, borland, watcom, open_watcom, sun_pro, hp, compaq,
}
use distributed_kvstore.Probe.Compilers.Middle.{
  z_os, ibm_clang, xl_clang, xl, visual_age, nvhpc, pgi, cray_clang, cray, ti, fujitsu_clang,
  fujitsu, ghs, tasking, orange_c, sco, arm_cc,
}
use distributed_kvstore.Probe.Compilers.Lower.{
  apple_clang, arm_clang, ti_clang, clang, lcc, gnu, msvc, adsp, iar, hp_native,
}

-- `#if … #elif … #else`
unfoldable pub select : Macros → List Branch → Identity
select m [] = unknown
select m (b ∷ bs) = if b.test m then identity b m else select m bs

abbrev pub upper : List Branch
upper =
    intel ∷ intel_llvm ∷ path_scale ∷ embarcadero ∷ borland ∷ watcom ∷ open_watcom ∷ sun_pro ∷ hp
    ∷ compaq ∷ []

abbrev pub middle : List Branch
middle =
    z_os ∷ ibm_clang ∷ xl_clang ∷ xl ∷ visual_age ∷ nvhpc ∷ pgi ∷ cray_clang ∷ cray ∷ ti
    ∷ fujitsu_clang ∷ fujitsu ∷ ghs ∷ tasking ∷ orange_c ∷ sco ∷ arm_cc ∷ []

abbrev pub lower : List Branch
lower = apple_clang ∷ arm_clang ∷ ti_clang ∷ clang ∷ lcc ∷ gnu ∷ msvc ∷ adsp ∷ iar ∷ hp_native ∷ []

abbrev pub chain : List Branch
chain = upper ++ middle ++ lower

unfoldable pub identify : Macros → Identity
unfolding select
identify m = select m chain
