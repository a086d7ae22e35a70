-- ===== src/Dict/Lookup.antt =====
-- `find` after each operation, over any order of iteration.
use mathlib.Core.Path.{subst, subst₂}
use mathlib.Core.List.{Permᴰ}
use mathlib.Core.List.Permᴰ.{nil, cons, swap, trans, symm}
use distributed_kvstore.Prelude.{
  ◌≡◌, ◌≢◌, refl, sym, ◌∙◌, true, false, none, some, [], ◌∷◌, Bytes, if◌then◌else◌, arith,
  Bool-cases, inl, inr,
}
use distributed_kvstore.Text.{◌==◌}
use distributed_kvstore.Dict.{Dict, HashOrder, find, contains, replace, erase, assign, NodupKeys}

module _ {V : Type 0} where
  contains-false : (k : Bytes) (d : Dict V) → contains k d ≡ false → find k d ≡ none
  unfolding contains find
  contains-false k [] h = refl
  contains-false k ((j, v) ∷ d) h = ground (arith, contains-false k d)

  contains-true : (k : Bytes) (d : Dict V) → contains k d ≡ true → find k d ≢ none
  unfolding contains find
  contains-true k [] h = cc
  contains-true k ((j, v) ∷ d) h = ground (arith, contains-true k d)

  -- What two lists of entries with the same entries hold.
  abbrev SameFinds : Dict V → Dict V → Type 0
  SameFinds d e = NodupKeys e × ((j : Bytes) → find j d ≡ find j e)

  find-perm-cons :
      (a : Bytes × V) (d e : Dict V) → NodupKeys (a ∷ d) → SameFinds d e → SameFinds (a ∷ d) (a ∷ e)
  unfolding find
  find-perm-cons (k, v) d e (fresh, n) (m, same) =
      ((sym (same k) ∙ fresh, m), λ j. ground (arith, same j))

  find-perm-swap :
      (a b : Bytes × V) (d : Dict V) → NodupKeys (a ∷ b ∷ d) → SameFinds (a ∷ b ∷ d) (b ∷ a ∷ d)
  unfolding find
  find-perm-swap (k, v) (k', v') d (fresh, (fresh', n)) =
      ((ground arith, (ground arith, n)), λ j. ground arith)

  find-perm : (d e : Dict V) → Permᴰ d e → NodupKeys d → SameFinds d e
  find-perm _ _ nil n = (tt, λ j. refl)
  find-perm _ _ (cons {a = a} {b = b} {l₁ = d} {l₂ = e} p q) n =
      subst (λ x. SameFinds (a ∷ d) (x ∷ e)) p (find-perm-cons a d e n (find-perm d e q n.1))
  find-perm _ _ (swap {a = a} {b = b} {l = d} p q) n =
      subst₂ (λ x y. SameFinds (a ∷ b ∷ d) (y ∷ x ∷ d)) p q (find-perm-swap a b d n)
  find-perm _ _ (trans {l₁ = d} {l₂ = e} {l₃ = f} p q) n =
      let s = find-perm d e p n in let t = find-perm e f q s.0 in (t.0, λ j. s.1 j ∙ t.1 j)

  find-replace :
      (k j : Bytes) (v : V) (d : Dict V)
      → contains k d ≡ true
      → find j (replace k v d) ≡ (if j == k then some v else find j d)
  unfolding contains replace find
  find-replace k j v [] h = cc
  find-replace k j v ((i, w) ∷ d) h = ground (arith, find-replace k j v d)

  replace_absent : (k : Bytes) (v : V) (d : Dict V) → contains k d ≡ false → replace k v d ≡ d
  unfolding contains replace
  replace_absent k v [] h = refl
  replace_absent k v ((i, w) ∷ d) h = ground (arith, replace_absent k v d)

  replace-NodupKeys : (k : Bytes) (v : V) (d : Dict V) → NodupKeys d → NodupKeys (replace k v d)
  unfolding contains replace find
  replace-NodupKeys k v [] n = tt
  replace-NodupKeys k v ((i, w) ∷ d) (fresh, n) = elim (Bool-cases (contains k d)) [
    | inl h ↦ ground (arith, replace-NodupKeys k v d n, find-replace k i v d h)
    | inr h ↦ ground (arith, replace-NodupKeys k v d n, replace_absent k v d h)
  ]

  pub find-erase :
      (k j : Bytes) (d : Dict V)
      → NodupKeys d
      → find j (erase k d) ≡ (if j == k then none else find j d)
  unfolding erase find
  find-erase k j [] n = ground arith
  find-erase k j ((i, w) ∷ d) (fresh, n) = ground (arith, find-erase k j d n)

  pub erase-NodupKeys : (k : Bytes) (d : Dict V) → NodupKeys d → NodupKeys (erase k d)
  unfolding erase find
  erase-NodupKeys k [] n = tt
  erase-NodupKeys k ((i, w) ∷ d) (fresh, n) =
      ground (arith, erase-NodupKeys k d n, find-erase k i d n)

  module _ (H : HashOrder) where
    assign-SameFinds :
        (k : Bytes) (v : V) (d : Dict V)
        → NodupKeys d
        → contains k d ≡ false
        → SameFinds ((k, v) ∷ d) (H.place V (k, v) d)
    assign-SameFinds k v d n h =
        find-perm _ _ (symm (H.place-perm V (k, v) d)) (contains-false k d h, n)

    -- What `find` returns after an assignment, over any order.
    pub find-assign :
        (k j : Bytes) (v : V) (d : Dict V)
        → NodupKeys d
        → find j (assign H k v d) ≡ (if j == k then some v else find j d)
    unfolding assign find
    find-assign k j v d n = elim (Bool-cases (contains k d)) [
      | inl h ↦ rw h (find-replace k j v d h)
      | inr h ↦ rw h (sym ((assign-SameFinds k v d n h).1 j))
    ]

    pub assign-NodupKeys :
        (k : Bytes) (v : V) (d : Dict V) → NodupKeys d → NodupKeys (assign H k v d)
    unfolding assign
    assign-NodupKeys k v d n = elim (Bool-cases (contains k d)) [
      | inl h ↦ rw h (replace-NodupKeys k v d n)
      | inr h ↦ rw h (assign-SameFinds k v d n h).0
    ]
