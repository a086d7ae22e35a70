-- ===== src/Requests/Fuel.antt =====
-- The loop of `parse_keys_with_timestamps` ends: its fuel is enough for every text.
use distributed_kvstore.Prelude.{
  ℕ, zero, suc, ◌<◌, ◌≡◌, ◌⊎◌, refl, Option, some, [], ◌∷◌, Bytes, Exception, Result, ok, err,
  length, arith, Option-cases, inl, inr, ap, ◌∙◌,
}
use distributed_kvstore.Text.Decimal.{stoull}
use distributed_kvstore.Text.Fields.{break_at, break_at-shorter}
use distributed_kvstore.Dict.{Dict, HashOrder, assign}
use distributed_kvstore.Requests.{parse_keys, parse_keys_with_timestamps}

Result-cases {ℓ} :
    {A : Type ℓ} (r : Result A) → ((e : Exception) × (r ≡ err e)) ⊎ ((a : A) × (r ≡ ok a))
Result-cases (ok a) = inr (a, refl)
Result-cases (err e) = inl (e, refl)

pair_of : {x : Bytes × Option Bytes} {r : Bytes} → x.1 ≡ some r → x ≡ (x.0, some r)
pair_of {x} h = ap (λ (o : Option Bytes). (x.0, o)) h

module _ (H : HashOrder) where
  any_fuel :
      (f g : ℕ) (s : Bytes) (m : Dict ℕ)
      → length s < f
      → length s < g
      → parse_keys H f s m ≡ parse_keys H g s m
  unfolding parse_keys
  any_fuel zero g s m lt lt' = absurd (omega arith)
  any_fuel (suc f) zero s m lt lt' = absurd (omega arith)
  any_fuel (suc f) (suc g) [] m lt lt' = refl
  any_fuel (suc f) (suc g) (c ∷ s) m lt lt' = elim (Option-cases (break_at b':' (c ∷ s)).1) [
    | inl e ↦ rw (e, parse_keys) refl
    | inr (behind, e) ↦
        rw (e, parse_keys)
          (elim (Result-cases (stoull (break_at b';' behind).0)) [
            | inl (x, e') ↦ rw e' refl
            | inr (ts, e') ↦ rw e' (elim (Option-cases (break_at b';' behind).1) [
              | inl e'' ↦ rw e'' refl
              | inr (rest, e'') ↦ rw e'' (
                  let shorter : length rest < suc (length s) = omega (
                    arith,
                    break_at-shorter b':' (c ∷ s) _ behind (pair_of e),
                    break_at-shorter b';' behind _ rest (pair_of e''),
                  ) in
                  any_fuel f g rest _ (omega arith) (omega arith))
            ])
          ])
  ]

  enough_fuel :
      (f : ℕ) (s : Bytes) (m : Dict ℕ)
      → length s < f
      → (r : Result (Dict ℕ)) × (parse_keys H f s m ≡ some r)
  unfolding parse_keys
  enough_fuel zero s m lt = absurd (omega arith)
  enough_fuel (suc f) [] m lt = (ok m, refl)
  enough_fuel (suc f) (c ∷ s) m lt = elim (Option-cases (break_at b':' (c ∷ s)).1) [
    | inl e ↦ (ok m, rw (e, parse_keys) refl)
    | inr (behind, e) ↦ elim (Result-cases (stoull (break_at b';' behind).0)) [
      | inl (x, e') ↦ (err x, rw (e, e', parse_keys) refl)
      | inr (ts, e') ↦
          let out = assign H (break_at b':' (c ∷ s)).0 ts m in
          elim (Option-cases (break_at b';' behind).1) [
            | inl e'' ↦ (ok out, rw (e, e', e'', parse_keys) refl)
            | inr (rest, e'') ↦
                let shorter : length rest < suc (length s) = omega (
                  arith,
                  break_at-shorter b':' (c ∷ s) _ behind (pair_of e),
                  break_at-shorter b';' behind _ rest (pair_of e''),
                ) in
                let (r, done) = enough_fuel f rest out (omega arith) in
                (r, rw (e, e', e'', parse_keys) done)
          ]
    ]
  ]

  -- The loop of parse_keys_with_timestamps ends: given more fuel than the text has bytes, it comes to
  -- its end, with the map or with what stoull throws, which is what the function gives.
  pub parse_keys-fuel :
      (fuel : ℕ) (s : Bytes)
      → length s < fuel
      → parse_keys H fuel s [] ≡ some (parse_keys_with_timestamps H s)
  unfolding parse_keys_with_timestamps
  parse_keys-fuel fuel s lt =
      let (r, done) = enough_fuel (suc (length s)) s [] (omega arith) in
      any_fuel fuel (suc (length s)) s [] lt (omega arith) ∙ rw done refl
