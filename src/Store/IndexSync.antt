-- ===== src/Store/IndexSync.antt =====
-- The Merkle index that a store shares is rebuilt by every call that changes the table.
use distributed_kvstore.Prelude.{
  ℕ, zero, suc, ◌≡◌, some, List, [], ◌∷◌, Bytes, arith, ◌<◌, length, get_elem?,
  get_elem?-set_elem_self, Bool-cases, inl, inr,
}
use distributed_kvstore.Dict.{Dict, HashOrder, find}
use distributed_kvstore.Merkle.{Merkle}
use distributed_kvstore.MerkleIndex.{rebuild}
use distributed_kvstore.Store.{
  ValueWithTimestamp, KeyValueStore, Shared, Memory, may_set, may_del, set, del, rebuild_index,
  with_store, set_merkle_index, get_all_key_value_data,
}
use distributed_kvstore.Store.Updates.{Update, puts, removes, run}

get_elem?-lt {ℓ} :
    {A : Type ℓ} (xs : List A) (i : ℕ) {a : A} → get_elem? xs i ≡ some a → i < length xs
get_elem?-lt [] i h = cc
get_elem?-lt (x ∷ xs) zero h = omega arith
get_elem?-lt (x ∷ xs) (suc i) h = omega (arith, get_elem?-lt xs i h)

module _ (H : HashOrder) (M : Merkle) where
  -- The index at the store's address is the one that the present entries build.
  pub record IsSynced (s : Shared M) : Type 0 where
    pub at_address :
        (p : ℕ)
        → s.kv.merkle_index ≡ some p
        → get_elem? s.memory p ≡ some (rebuild M H (get_all_key_value_data H s.kv))

  rebuild_index-at :
      (kv : KeyValueStore) (memory : Memory M) (p : ℕ)
      → kv.merkle_index ≡ some p
      → p < length memory
      → get_elem? (rebuild_index H M kv memory) p ≡ some (rebuild M H (get_all_key_value_data H kv))
  unfolding rebuild_index
  rebuild_index-at kv memory p e h = rw e (get_elem?-set_elem_self memory p _ h)

  -- An index of the memory becomes the store's: it is built from the present entries at once.
  pub set_merkle_index-IsSynced :
      (s : Shared M) (p : ℕ) → p < length s.memory → IsSynced (set_merkle_index H M s (some p))
  unfolding set_merkle_index
  set_merkle_index-IsSynced s p h = record {
    at_address = λ q e. let same : p ≡ q = cc in rebuild_index-at _ s.memory q e (omega arith);
  }

  with_store-IsSynced :
      (s : Shared M) (d : Dict ValueWithTimestamp) → IsSynced s → IsSynced (with_store H M s d)
  with_store-IsSynced s d sync = record {
    at_address =
        λ p e. rebuild_index-at _ s.memory p e (get_elem?-lt s.memory p (sync.at_address p e));
  }

  pub set-IsSynced :
      (s : Shared M) (key value : Bytes) (timestamp : ℕ)
      → IsSynced s
      → IsSynced (set H M s key value timestamp).0
  unfolding set
  set-IsSynced s key value timestamp sync =
      elim (Bool-cases (may_set (find key s.kv.store) timestamp)) [
        | inl e ↦ rw e (with_store-IsSynced s _ sync)
        | inr e ↦ rw e sync
      ]

  pub del-IsSynced :
      (s : Shared M) (key : Bytes) (timestamp : ℕ)
      → IsSynced s
      → IsSynced (del H M s key timestamp).0
  unfolding del
  del-IsSynced s key timestamp sync = elim (Bool-cases (may_del (find key s.kv.store) timestamp)) [
    | inl e ↦ rw e (with_store-IsSynced s _ sync)
    | inr e ↦ rw e sync
  ]

  -- Where the index that a store shares is the one that its entries build, it is so again after any
  -- history of sets and removals.
  run-IsSynced : (us : List Update) (s : Shared M) → IsSynced s → IsSynced (run H M s us)
  unfolding run
  run-IsSynced [] s h = h
  run-IsSynced (puts key v ∷ us) s h = run-IsSynced us _ (set-IsSynced s key v.value v.timestamp h)
  run-IsSynced (removes key timestamp ∷ us) s h = run-IsSynced us _ (del-IsSynced s key timestamp h)
