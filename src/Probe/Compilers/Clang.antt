-- ===== src/Probe/Compilers/Clang.antt =====
-- The order of the chain: a compiler that poses as another is found before it.
use mathlib.Core.Bool.{not}
use distributed_kvstore.Prelude.{
  ◌≡◌, ◌≢◌, refl, ap, Bool, true, ◌&&◌, some, List, [], ◌∷◌, ◌++◌, Bytes, codes, arith, Bool-cases,
  inl, inr, All,
}
use distributed_kvstore.Text.{◌==◌, bytes_dec}
use distributed_kvstore.Probe.{Value, is_some, Macros, Branch}
use distributed_kvstore.Probe.Compilers.{select, identify, upper, middle}
use distributed_kvstore.Probe.Compilers.Lower.{
  apple_clang, arm_clang, ti_clang, clang, lcc, gnu, msvc, adsp, iar, hp_native,
}

-- No branch has the name.
abbrev none_named : Bytes → List Branch → Bool
none_named name [] = true
none_named name (b ∷ bs) = not (codes b.name == name) && none_named name bs

differs :
    (a name : Bytes) (rest : Bool) → not (a == name) && rest ≡ true → (a ≢ name) × (rest ≡ true)
differs a name rest h = (λ e. absurd (ground (arith, h, e)), ground (arith, h))

-- Where the condition of a branch holds, the chain names that branch or one before it.
select-named :
    (m : Macros) (name : Bytes) (earlier : List Branch) (b : Branch) (later : List Branch)
    → b.test m ≡ true
    → none_named name (earlier ++ b ∷ []) ≡ true
    → (select m (earlier ++ b ∷ later)).compiler_id ≢ name
unfolding select
select-named m name [] b later holds h = rw holds (differs (codes b.name) name true h).0
select-named m name (c ∷ earlier) b later holds h =
    let (other, rest) = differs (codes c.name) name (none_named name (earlier ++ b ∷ [])) h in
    elim (Bool-cases (c.test m)) [
      | inl e ↦ rw e other
      | inr e ↦ rw e (select-named m name earlier b later holds rest)
    ]

-- A compiler that defines `__clang__` is never taken for LCC, GNU, MSVC, ADSP, IAR or an unknown
-- one, whatever else it defines: the macros of GCC and of Visual C++ that it defines for their sake
-- are looked at behind its own.
identify-clang :
    (m : Macros) (v : Value)
    → m "__clang__" ≡ some v
    → All
        (λ name. (identify m).compiler_id ≢ name)
        (codes "LCC" ∷ codes "GNU" ∷ codes "MSVC" ∷ codes "ADSP" ∷ codes "IAR" ∷ [] ∷ [])
unfolding identify bytes_dec
identify-clang m v h =
    let holds : clang.test m ≡ true = ap is_some h in
    let earlier = upper ++ middle ++ apple_clang ∷ arm_clang ∷ ti_clang ∷ [] in
    let later = lcc ∷ gnu ∷ msvc ∷ adsp ∷ iar ∷ hp_native ∷ [] in
    let other = λ (name : Bytes) (h : none_named name (earlier ++ clang ∷ []) ≡ true).
      select-named m name earlier clang later holds h in
    (
      other (codes "LCC") refl,
      (
        other (codes "GNU") refl,
        (
          other (codes "MSVC") refl,
          (other (codes "ADSP") refl, (other (codes "IAR") refl, (other [] refl, tt))),
        ),
      ),
    )
