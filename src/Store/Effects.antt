-- ===== src/Store/Effects.antt =====
-- What `set` and `del` do to the table, on every branch.
use distributed_kvstore.Prelude.{
  ℕ, ◌≤◌, ◌≡◌, ◌&&◌, none, some, Bytes, if◌then◌else◌, arith, Bool-cases, inl, inr,
}
use distributed_kvstore.Text.{◌==◌}
use distributed_kvstore.Dict.{HashOrder, find, NodupKeys}
use distributed_kvstore.Dict.Lookup.{find-assign, assign-NodupKeys, find-erase, erase-NodupKeys}
use distributed_kvstore.Merkle.{Merkle}
use distributed_kvstore.Store.{ValueWithTimestamp, Shared, may_set, may_del, set, del}

module _ (H : HashOrder) (M : Merkle) (s : Shared M) where
  pub find-set :
      (key value : Bytes) (timestamp : ℕ) (j : Bytes)
      → NodupKeys s.kv.store
      → find j (set H M s key value timestamp).0.kv.store ≡ (
          if j == key && may_set (find key s.kv.store) timestamp
          then some (record { value = value; timestamp = timestamp })
          else find j s.kv.store)
  unfolding set
  find-set key value timestamp j n =
      ground
        (arith, find-assign H key j (record { value = value; timestamp = timestamp }) s.kv.store n)

  pub set-result :
      (key value : Bytes) (timestamp : ℕ)
      → (set H M s key value timestamp).1 ≡ may_set (find key s.kv.store) timestamp
  unfolding set
  set-result key value timestamp = ground arith

  pub set-NodupKeys :
      (key value : Bytes) (timestamp : ℕ)
      → NodupKeys s.kv.store
      → NodupKeys (set H M s key value timestamp).0.kv.store
  unfolding set
  set-NodupKeys key value timestamp n =
      ground (
        arith,
        assign-NodupKeys H key (record { value = value; timestamp = timestamp }) s.kv.store n,
      )

  pub find-del :
      (key : Bytes) (timestamp : ℕ) (j : Bytes)
      → NodupKeys s.kv.store
      → find j (del H M s key timestamp).0.kv.store
        ≡ (if j == key && may_del (find key s.kv.store) timestamp then none else find j s.kv.store)
  unfolding del
  find-del key timestamp j n = ground (arith, find-erase key j s.kv.store n)

  pub del-result :
      (key : Bytes) (timestamp : ℕ)
      → (del H M s key timestamp).1 ≡ may_del (find key s.kv.store) timestamp
  unfolding del
  del-result key timestamp = ground arith

  pub del-NodupKeys :
      (key : Bytes) (timestamp : ℕ)
      → NodupKeys s.kv.store
      → NodupKeys (del H M s key timestamp).0.kv.store
  unfolding del
  del-NodupKeys key timestamp n = ground (arith, erase-NodupKeys key s.kv.store n)

  -- Neither call moves the store to another index.
  pub merkle_index-set :
      (key value : Bytes) (timestamp : ℕ)
      → (set H M s key value timestamp).0.kv.merkle_index ≡ s.kv.merkle_index
  unfolding set
  merkle_index-set key value timestamp = ground arith

  pub merkle_index-del :
      (key : Bytes) (timestamp : ℕ)
      → (del H M s key timestamp).0.kv.merkle_index ≡ s.kv.merkle_index
  unfolding del
  merkle_index-del key timestamp = ground arith

  -- No call of `set` takes an entry away or puts one with an earlier timestamp in its place.
  pub set-advances :
      (key value : Bytes) (timestamp : ℕ) (j : Bytes) (w : ValueWithTimestamp)
      → NodupKeys s.kv.store
      → find j s.kv.store ≡ some w
      → (x : ValueWithTimestamp) × (find j (set H M s key value timestamp).0.kv.store ≡ some x)
        × (w.timestamp ≤ x.timestamp)
  set-advances key value timestamp j w n h =
      let found = find-set key value timestamp j n in
      elim (Bool-cases (j == key && may_set (find key s.kv.store) timestamp)) [
        | inl taken ↦
            (record { value = value; timestamp = timestamp }, ground (arith, found), ground arith)
        | inr refused ↦ (w, ground (arith, found), omega arith)
      ]
