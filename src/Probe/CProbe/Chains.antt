-- ===== src/Probe/CProbe/Chains.antt =====
-- The chains of the two probes: what one has and the other has not.
use Prim.Native.String.{String}
use distributed_kvstore.Prelude.{
  ◌≡◌, ◌⊎◌, refl, ◌∙◌, Bool, true, false, Option, none, some, List, [], ◌∷◌, ◌++◌, codes,
  Bool-cases, Option-cases, inl, inr, if◌then◌else◌,
}
use distributed_kvstore.Text.{◌==◌, bytes_dec}
use distributed_kvstore.Probe.{Value, Macros, Branch, Identity, identity, defined}
use distributed_kvstore.Probe.Compilers.{select}
use distributed_kvstore.Probe.Compilers.Upper.{
  intel, intel_llvm, path_scale, embarcadero, borland, watcom, open_watcom,
}
use distributed_kvstore.Probe.Compilers.Middle.{
  ibm_clang, xl_clang, nvhpc, pgi, cray_clang, cray, ti, fujitsu_clang, fujitsu, ghs, tasking,
  orange_c, sco, arm_cc,
}
use distributed_kvstore.Probe.Compilers.Lower.{
  apple_clang, arm_clang, ti_clang, clang, lcc, gnu, msvc, adsp, iar,
}
use distributed_kvstore.Probe.CProbe.{c_gnu}

-- The macros that one of the two probes alone tests, but for `__GNUG__`.
abbrev pub own_macros : List String
own_macros =
    "__SUNPRO_C" ∷ "__SUNPRO_CC" ∷ "__HP_cc" ∷ "__HP_aCC" ∷ "__DECC" ∷ "__DECCXX" ∷ "__IBMC__"
    ∷ "__IBMCPP__" ∷ "__TINYC__" ∷ "__BCC__" ∷ "__SDCC_VERSION_MAJOR" ∷ "SDCC" ∷ []

-- The macros for C++ of a compiler that for C has `m`: `__cplusplus`, and `__GNUG__` or not.
abbrev pub for_cpp : Value → Option Value → Macros → Macros
for_cpp v g m name =
    if codes name == codes "__cplusplus"
    then some v
    else if codes name == codes "__GNUG__"
    then g
    else m name

-- What each branch of a chain makes of the macros.
unfoldable pub outcomes : Macros → List Branch → List (Bool × Identity)
outcomes m [] = []
outcomes m (b ∷ bs) = (b.test m, identity b m) ∷ outcomes m bs

abbrev first_or : List (Bool × Identity) → Identity → Identity
first_or [] i = i
first_or ((true, o) ∷ os) i = o
first_or ((false, o) ∷ os) i = first_or os i

select-append :
    (m : Macros) (bs cs : List Branch)
    → select m (bs ++ cs) ≡ first_or (outcomes m bs) (select m cs)
unfolding select outcomes
select-append m [] cs = refl
select-append m (b ∷ bs) cs = elim (Bool-cases (b.test m)) [
  | inl e ↦ rw e refl
  | inr e ↦ rw e (select-append m bs cs)
]

module _ (m n : Macros) where
  -- Chains that choose the same, each under its macros.
  abbrev pub Agree : List Branch → List Branch → Type 0
  Agree bs cs = select m bs ≡ select n cs

  pub Agree-prefix :
      (xs bs cs : List Branch)
      → outcomes m xs ≡ outcomes n xs
      → Agree bs cs
      → Agree (xs ++ bs) (xs ++ cs)
  Agree-prefix xs bs cs e h = rw (select-append m xs bs, select-append n xs cs, e, h) refl

  -- A branch that does not hold, in the one or the other.
  pub Agree-left :
      (b : Branch) (bs cs : List Branch) → b.test m ≡ false → Agree bs cs → Agree (b ∷ bs) cs
  unfolding select
  Agree-left b bs cs e h = rw e h

  pub Agree-right :
      (c : Branch) (bs cs : List Branch) → c.test n ≡ false → Agree bs cs → Agree bs (c ∷ cs)
  unfolding select
  Agree-right c bs cs e h = rw e h

  pub Agree-both :
      (b c : Branch) (bs cs : List Branch)
      → b.test m ≡ c.test n
      → identity b m ≡ identity c n
      → Agree bs cs
      → Agree (b ∷ bs) (c ∷ cs)
  unfolding select
  Agree-both b c bs cs e i h = elim (Bool-cases (c.test n)) [
    | inl e' ↦ rw (e ∙ e', e') i
    | inr e' ↦ rw (e ∙ e', e') h
  ]

-- No branch of the two chains but those of the two Intel compilers, LCC and GNU reads what C++ adds.
module _ (m : Macros) (v : Value) (g : Option Value) where
  abbrev n : Macros
  n = for_cpp v g m

  pub same_upper :
      (let l : List Branch = path_scale ∷ embarcadero ∷ borland ∷ watcom ∷ open_watcom ∷ [] in
        outcomes m l ≡ outcomes n l)
  unfolding outcomes bytes_dec
  same_upper = refl

  pub same_ibm : (let l : List Branch = ibm_clang ∷ xl_clang ∷ [] in outcomes m l ≡ outcomes n l)
  unfolding outcomes bytes_dec
  same_ibm = refl

  pub same_middle :
      (let l : List Branch =
          nvhpc ∷ pgi ∷ cray_clang ∷ cray ∷ ti ∷ fujitsu_clang ∷ fujitsu ∷ ghs ∷ tasking ∷ orange_c
          ∷ [] in
        outcomes m l ≡ outcomes n l)
  unfolding outcomes bytes_dec
  same_middle = refl

  pub same_clang :
      (let l : List Branch = sco ∷ arm_cc ∷ apple_clang ∷ arm_clang ∷ ti_clang ∷ clang ∷ [] in
        outcomes m l ≡ outcomes n l)
  unfolding outcomes bytes_dec
  same_clang = refl

  pub same_lower : (let l : List Branch = msvc ∷ adsp ∷ iar ∷ [] in outcomes m l ≡ outcomes n l)
  unfolding outcomes bytes_dec
  same_lower = refl

  -- Where C++ adds `__GNUG__`, `__GNUC__` is there.
  module _ (gnug : m "__GNUG__" ≡ none) (with_gnuc : g ≡ none ⊎ (defined m "__GNUC__" ≡ true)) where
    -- To split on `__GNUC__`: it is there, or neither it nor `__GNUG__` is.
    gnuc-cases : ((x : Value) × (m "__GNUC__" ≡ some x)) ⊎ ((m "__GNUC__" ≡ none) × (g ≡ none))
    gnuc-cases = elim (Option-cases (m "__GNUC__")) [
      | inl e ↦ inr (
        e,
        elim with_gnuc [ inl h ↦ h | inr h ↦ absurd (let h' : false ≡ true = rw e at h in cc) ],
      )
      | inr (x, e) ↦ inl (x, e)
    ]

    pub intel_same : identity intel m ≡ identity intel n
    unfolding bytes_dec
    intel_same = elim gnuc-cases [ inl (x, e) ↦ rw e refl | inr (e, h) ↦ rw (e, h, gnug) refl ]

    pub intel_llvm_same : identity intel_llvm m ≡ identity intel_llvm n
    unfolding bytes_dec
    intel_llvm_same = elim gnuc-cases [ inl (x, e) ↦ rw e refl | inr (e, h) ↦ rw (e, h, gnug) refl ]

    pub lcc_test : lcc.test m ≡ lcc.test n
    unfolding bytes_dec
    lcc_test = elim gnuc-cases [ inl (x, e) ↦ rw e refl | inr (e, h) ↦ rw (e, h, gnug) refl ]

    pub gnu_test : c_gnu.test m ≡ gnu.test n
    unfolding bytes_dec
    gnu_test = elim gnuc-cases [ inl (x, e) ↦ rw e refl | inr (e, h) ↦ rw (e, h) refl ]

    pub gnu_same : identity c_gnu m ≡ identity gnu n
    unfolding bytes_dec
    gnu_same = elim gnuc-cases [ inl (x, e) ↦ rw e refl | inr (e, h) ↦ rw (e, h) refl ]
