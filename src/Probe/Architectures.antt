-- ===== src/Probe/Architectures.antt =====
-- `ARCHITECTURE_ID`: for the compilers whose target shows in their macros.
use Prim.Native.String.{String}
use distributed_kvstore.Prelude.{
  ◌&&◌, ◌||◌, Option, some, List, [], ◌∷◌, ◌++◌, Bytes, codes, ◌==◌, if◌then◌else◌,
}
use distributed_kvstore.Text.Decimal.{to_string}
use distributed_kvstore.Probe.{Value, number, Macros, defined, value}
use distributed_kvstore.Probe.Platforms.{pick}

-- `STRINGIFY(name)` for a macro that is an integer, spelled in decimal: the text behind `ARMV`.
abbrev pub stringify : Option Value → Bytes
stringify (some (number n)) = to_string n
stringify _ = []

abbrev pub windows_before_arm : List (List String × String)
windows_before_arm =
    ("_M_IA64" ∷ [], "IA64")
    ∷ ("_M_ARM64EC" ∷ [], "ARM64EC")
    ∷ ("_M_X64" ∷ "_M_AMD64" ∷ [], "x64")
    ∷ ("_M_IX86" ∷ [], "X86")
    ∷ ("_M_ARM64" ∷ [], "ARM64")
    ∷ []

abbrev pub windows_arm : Macros → Bytes
windows_arm m =
    if value m "_M_ARM" == 4
    then codes "ARMV4I"
    else if value m "_M_ARM" == 5
    then codes "ARMV5I"
    else codes "ARMV" ++ stringify (m "_M_ARM")

abbrev pub windows_behind_arm : List (List String × String)
windows_behind_arm = ("_M_MIPS" ∷ [], "MIPS") ∷ ("_M_SH" ∷ [], "SHx") ∷ []

abbrev pub watcom_architectures : List (List String × String)
watcom_architectures = ("_M_I86" ∷ [], "I86") ∷ ("_M_IX86" ∷ [], "X86") ∷ []

abbrev pub iar_architectures : List (List String × String)
iar_architectures =
    ("__ICCARM__" ∷ [], "ARM")
    ∷ ("__ICCRX__" ∷ [], "RX")
    ∷ ("__ICCRH850__" ∷ [], "RH850")
    ∷ ("__ICCRL78__" ∷ [], "RL78")
    ∷ ("__ICCRISCV__" ∷ [], "RISCV")
    ∷ ("__ICCAVR__" ∷ [], "AVR")
    ∷ ("__ICC430__" ∷ [], "MSP430")
    ∷ ("__ICCV850__" ∷ [], "V850")
    ∷ ("__ICC8051__" ∷ [], "8051")
    ∷ ("__ICCSTM8__" ∷ [], "STM8")
    ∷ []

abbrev pub ghs_architectures : List (List String × String)
ghs_architectures =
    ("__PPC64__" ∷ [], "PPC64")
    ∷ ("__ppc__" ∷ [], "PPC")
    ∷ ("__ARM__" ∷ [], "ARM")
    ∷ ("__x86_64__" ∷ [], "x64")
    ∷ ("__i386__" ∷ [], "X86")
    ∷ []

abbrev pub ti_architectures : List (List String × String)
ti_architectures =
    ("__TI_ARM__" ∷ [], "ARM")
    ∷ ("__MSP430__" ∷ [], "MSP430")
    ∷ ("__TMS320C28XX__" ∷ [], "TMS320C28x")
    ∷ ("__TMS320C6X__" ∷ "_TMS320C6X" ∷ [], "TMS320C6x")
    ∷ []

abbrev pub tasking_architectures : List (List String × String)
tasking_architectures =
    ("__CTC__" ∷ "__CPTC__" ∷ [], "TriCore")
    ∷ ("__CMCS__" ∷ [], "MCS")
    ∷ ("__CARM__" ∷ "__CPARM__" ∷ [], "ARM")
    ∷ ("__CARC__" ∷ [], "ARC")
    ∷ ("__C51__" ∷ [], "8051")
    ∷ ("__CPCP__" ∷ [], "PCP")
    ∷ []

unfoldable pub architecture_id : Macros → Bytes
unfolding pick
architecture_id m =
    if defined m "_WIN32" && defined m "_MSC_VER"
    then pick m windows_before_arm
        (if defined m "_M_ARM" then windows_arm m else pick m windows_behind_arm [])
    else if defined m "__WATCOMC__"
    then pick m watcom_architectures []
    else if defined m "__IAR_SYSTEMS_ICC__" || defined m "__IAR_SYSTEMS_ICC"
    then pick m iar_architectures []
    else if defined m "__ghs__"
    then pick m ghs_architectures []
    else if defined m "__clang__" && defined m "__ti__"
    then pick m (("__ARM_ARCH" ∷ [], "ARM") ∷ []) []
    else if defined m "__TI_COMPILER_VERSION__"
    then pick m ti_architectures []
    else if defined m "__ADSPSHARC__"
    then codes "SHARC"
    else if defined m "__ADSPBLACKFIN__"
    then codes "Blackfin"
    else if defined m "__TASKING__"
    then pick m tasking_architectures []
    else []
