-- ===== src/AntiEntropy/Outcomes.antt =====
-- How a run ends: with equal roots, with an empty local index, and with keys to update.
use mathlib.Core.Path.{subst}
use mathlib.Core.Logic.{if_pos}
use distributed_kvstore.Prelude.{
  ℕ, ◌≡◌, refl, sym, Bool, true, false, some, List, [], ◌∷◌, ◌++◌, Bytes, codes, Result, ok, err,
  if◌then◌else◌, arith,
}
use distributed_kvstore.Text.{bytes_dec}
use distributed_kvstore.Dict.{HashOrder}
use distributed_kvstore.Merkle.{Merkle}
use distributed_kvstore.MerkleIndex.{get_root_hash, find_differences}
use distributed_kvstore.Store.{Shared}
use distributed_kvstore.Node.{AntiEntropyManager, deref}
use distributed_kvstore.Io.{World, pure, lift, after, for_each}
use distributed_kvstore.AntiEntropy.{
  Run, connect, exchange, update_key, differing_keys, synchronise, run_with_index, run_anti_entropy,
  parse_peer_keys, join_keys, parse_peer_paths, remote_paths,
}

module _ (M : Merkle) (H : HashOrder) (W : World) where
  -- Where the manager has an index, the peer accepts the connection and answers with the root of that
  -- index, the run returns and changes nothing but the world: it makes one connection and one
  -- exchange.
  equal_roots :
      (manager : AntiEntropyManager) (p : ℕ) (s : Shared M) (w w₁ w₂ : W.State)
      → manager.merkle_index ≡ some p
      → W.connect w ≡ (ok tt, w₁)
      → W.exchange 4096 w₁ (codes "GET_MERKLE_ROOT")
        ≡ (ok (M.hash_string (get_root_hash M (deref M s.memory p))), w₂)
      → run_anti_entropy M H W manager (s, w) ≡ (ok tt, (s, w₂))
  unfolding run_anti_entropy run_with_index
  equal_roots manager p s w w₁ w₂ managed connected answered =
      rw (managed, connected, answered) (rw (if_pos (bytes_dec root root) refl true false) refl)
    where
      root : Bytes
      root = M.hash_string (get_root_hash M (deref M s.memory p))

  -- A part of a run that leaves the store `s` as it is, and whose result, if it returns, is in `Q`.
  record Leaves (s : Shared M) {A : Type 0} (Q : A → Type 0) (x : Result A × (Shared M × W.State))
      : Type 0 where
    same : x.1.0 ≡ s
    value : (a : A) → x.0 ≡ ok a → Q a

  module _ (s : Shared M) {A B : Type 0} {Q : A → Type 0} {R : B → Type 0} where
    Leaves-after :
        (x : Result A × (Shared M × W.State)) (f : A → Run M H W B)
        → Leaves s Q x
        → ((a : A) (w : W.State) → Q a → Leaves s R (f a (s, w)))
        → Leaves s R (after x f)
    Leaves-after (ok a, (s', w)) f h k =
        subst (λ z. Leaves s R (f a (z, w))) (sym h.same) (k a w (h.value a refl))
    Leaves-after (err e, (s', w)) f h k = record { same = h.same; value = λ a q. absurd (cc) }

  abbrev Any : {A : Type 0} → A → Type 0
  Any a = Unit {0}

  module _ (p : ℕ) (s : Shared M) (empty : M.is_empty (deref M s.memory p).merkle_tree ≡ true) where
    lift-Leaves : {A : Type 0} (r : Result A) (w : W.State) → Leaves s (Any {A = A}) (lift r (s, w))
    lift-Leaves r w = record { same = refl; value = λ a q. tt }

    differing_keys-Leaves :
        (str : Bytes) (w : W.State)
        → Leaves s (λ keys. keys ≡ []) (differing_keys M H W p str (s, w))
    unfolding differing_keys find_differences
    differing_keys-Leaves str w =
        Leaves-after s _ _ (lift-Leaves (parse_peer_paths str) w) λ paths w₁ _.
          Leaves-after s _ _ (lift-Leaves (remote_paths M paths) w₁)
            λ remote w₂ _. record { same = refl; value = λ keys q. ground arith }

    exchange-Leaves :
        (n : ℕ) (request : Bytes) (w : W.State)
        → Leaves s (Any {A = Bytes}) (exchange M H W n request (s, w))
    exchange-Leaves n request w = record { same = refl; value = λ a q. tt }

    no_updates :
        (keys : List Bytes) (w : W.State)
        → keys ≡ []
        → Leaves s (Any {A = Unit {0}}) (for_each (update_key M H W) keys (s, w))
    unfolding for_each
    no_updates [] w e = record { same = refl; value = λ a q. tt }
    no_updates (k ∷ keys) w e = absurd (cc)

    synchronise-Leaves : (w : W.State) → Leaves s (Any {A = Unit {0}}) (synchronise M H W p (s, w))
    unfolding synchronise
    synchronise-Leaves w =
        Leaves-after s _ _ (exchange-Leaves 4096 (codes "GET_ALL") w) λ keys w₁ _.
          Leaves-after s _ _
            (exchange-Leaves 4096 (codes "GET_PATHS " ++ join_keys (parse_peer_keys keys)) w₁)
            λ paths w₂ _.
              Leaves-after s _ _ (differing_keys-Leaves paths w₂)
                λ differing w₃ none_found. no_updates differing w₃ none_found

    connect-Leaves : (w : W.State) → Leaves s (Any {A = Unit {0}}) (connect M H W (s, w))
    connect-Leaves w = record { same = refl; value = λ a q. tt }

    compared-Leaves :
        (b : Bool) (w : W.State)
        → Leaves s (Any {A = Unit {0}}) ((if b then pure tt else synchronise M H W p) (s, w))
    compared-Leaves true w = record { same = refl; value = λ a q. tt }
    compared-Leaves false w = synchronise-Leaves w

    run_with_index-Leaves :
        (w : W.State) → Leaves s (Any {A = Unit {0}}) (run_with_index M H W p (s, w))
    unfolding run_with_index
    run_with_index-Leaves w = Leaves-after s _ _ (connect-Leaves w) λ _ w₁ _.
        Leaves-after s _ _ (exchange-Leaves 4096 (codes "GET_MERKLE_ROOT") w₁)
          λ root w₂ _. compared-Leaves _ w₂

  -- A manager whose index has no leaf never takes anything over: whatever the peer answers, a run leaves
  -- its store and its index as they are.
  pub empty_index_stays :
      (manager : AntiEntropyManager) (p : ℕ) (s : Shared M) (w : W.State)
      → manager.merkle_index ≡ some p
      → M.is_empty (deref M s.memory p).merkle_tree ≡ true
      → (run_anti_entropy M H W manager (s, w)).1.0 ≡ s
  unfolding run_anti_entropy
  empty_index_stays manager p s w managed empty =
      rw managed (run_with_index-Leaves p s empty w).same
