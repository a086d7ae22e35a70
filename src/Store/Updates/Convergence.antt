-- ===== src/Store/Updates/Convergence.antt =====
-- Replicas that receive the same `set` calls, each with its timestamp, in different orders.
use mathlib.Core.Path.{subst₂}
use mathlib.Core.Logic.{∥∥₁_elim}
use mathlib.Core.List.{Perm, Permᴰ, Pairwise, rel_of_Pairwise-cons, Pairwise-cons, mem-cons_self}
use mathlib.Core.List.Permᴰ.{nil, cons, swap, trans, pairwise}
use native.Mathlib.Nat.{ℕ_set}
use distributed_kvstore.Prelude.{
  ◌≡◌, ◌≢◌, refl, sym, Option, List, [], ◌∷◌, Bytes, if◌then◌else◌, arith, ◌∙◌, ap,
}
use distributed_kvstore.Text.{◌==◌, bytes_dec}
use distributed_kvstore.Dict.{HashOrder, NodupKeys}
use distributed_kvstore.Merkle.{Merkle}
use distributed_kvstore.Store.{ValueWithTimestamp, Shared}
use distributed_kvstore.Store.Updates.{
  Update, register_step, puts, run, view, latest, Registers, register_run, view-run,
}

abbrev pub Write : Type 0
Write = Bytes × ValueWithTimestamp

abbrev pub writes : List Write → List Update
writes [] = []
writes ((key, v) ∷ ws) = puts key v ∷ writes ws

-- Two writes of one key have different timestamps.
abbrev pub Apart : Write → Write → Type 0
Apart a b = a.0 ≡ b.0 → a.1.timestamp ≢ b.1.timestamp

pub Apart-prop : (a b : Write) → IsProp (Apart a b)
Apart-prop a b = hlevel

Apart-symm : (a b : Write) → Apart a b → Apart b a
Apart-symm a b h p q = h (sym p) (sym q)

module _ (j : Bytes) where
  settle_one : Option ValueWithTimestamp → Write → Option ValueWithTimestamp
  settle_one o (key, v) = if j == key then latest o v else o

  settle : Option ValueWithTimestamp → List Write → Option ValueWithTimestamp
  settle o [] = o
  settle o (w ∷ ws) = settle (settle_one o w) ws

  register_step-settle_one :
      (r : Registers) (key : Bytes) (v : ValueWithTimestamp)
      → register_step r (puts key v) j ≡ settle_one (r j) (key, v)
  unfolding settle_one
  register_step-settle_one r key v = ground arith

  register_run-settle :
      (ws : List Write) (r : Registers) → register_run r (writes ws) j ≡ settle (r j) ws
  unfolding register_run settle settle_one
  register_run-settle [] r = refl
  register_run-settle ((key, v) ∷ ws) r =
      register_run-settle ws _
      ∙ ap (λ (o : Option ValueWithTimestamp). settle o ws) (register_step-settle_one r key v)

  settle_one_comm :
      (o : Option ValueWithTimestamp) (a b : Write)
      → Apart a b
      → settle_one (settle_one o a) b ≡ settle_one (settle_one o b) a
  unfolding settle_one
  settle_one_comm o (k, v) (k', v') apart = elim (bytes_dec k k') [
    | yes p ↦ ground (arith, apart p)
    | no n ↦ ground arith
  ]

  settle-perm :
      (o : Option ValueWithTimestamp) (xs ys : List Write)
      → Permᴰ xs ys
      → Pairwise Apart xs
      → settle o xs ≡ settle o ys
  unfolding settle
  settle-perm o _ _ nil d = refl
  settle-perm o _ _ (cons {a = a} {b = b} {l₁ = xs} {l₂ = ys} e p) d =
      settle-perm (settle_one o a) xs ys p (Pairwise-cons.0 d).1
      ∙ ap (λ (x : Write). settle (settle_one o x) ys) e
  settle-perm o _ _ (swap {a = a} {b = b} {l = l} p q) d =
      subst₂ (λ x y. settle o (a ∷ b ∷ l) ≡ settle o (y ∷ x ∷ l)) p q
        (ap (λ (x : Option ValueWithTimestamp). settle x l)
          (settle_one_comm o a b (rel_of_Pairwise-cons d mem-cons_self)))
  settle-perm o _ _ (trans {l₁ = xs} {l₂ = ys} {l₃ = cs} p q) d =
      settle-perm o xs ys p d ∙ settle-perm o ys cs q (pairwise Apart-prop Apart-symm p d)

entry_set : IsSet (Option ValueWithTimestamp)
entry_set = hlevel ℕ_set

module _ (H : HashOrder) (M : Merkle) where
  -- Two replicas that hold the same entries, with tables that hold no key twice, and that receive the
  -- same writes in different orders, hold the same entry of every key afterwards, if two writes of
  -- one key never have the same timestamp.
  pub run-perm :
      (s t : Shared M) (xs ys : List Write)
      → NodupKeys s.kv.store
      → NodupKeys t.kv.store
      → ((key : Bytes) → view s key ≡ view t key)
      → Pairwise Apart xs
      → Perm xs ys
      → (j : Bytes) → view (run H M s (writes xs)) j ≡ view (run H M t (writes ys)) j
  run-perm s t xs ys n m same apart p j =
      view-run H M (writes xs) s j n
      ∙ register_run-settle j xs (view s)
      ∙ ap (λ (o : Option ValueWithTimestamp). settle j o xs) (same j)
      ∙ ∥∥₁_elim p (entry_set _ _) (λ q. settle-perm j (view t j) xs ys q apart)
      ∙ sym (register_run-settle j ys (view t))
      ∙ sym (view-run H M (writes ys) t j m)
