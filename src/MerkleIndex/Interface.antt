-- ===== src/MerkleIndex/Interface.antt =====
-- `IndexInterface` of index_interface.hpp: the operations that a store and a node call on their index,
-- four of them with a default, and the index of the program as its implementation.
use distributed_kvstore.Prelude.{ℕ, ◌≡◌, refl, Bool, true, List, [], Bytes, ◌==◌, ap, ◌∙◌}
use distributed_kvstore.Dict.{Dict, HashOrder}
use distributed_kvstore.Merkle.{Merkle, IsMerkle}
use distributed_kvstore.MerkleIndex.{
  KeyValueData, MerkleTreeIndex, new_index, rebuild, get_root_hash, get_paths, size, empty,
  get_key_timestamps,
}

-- The state of an implementation is `S`.
pub record IndexInterface (M : Merkle) (S : Type 0) : Type 0 where
  pub rebuild : S → KeyValueData → S
  pub get_key_timestamps : S → Dict ℕ
  pub get_root_hash : S → M.Hash
  pub get_paths : S → List Bytes → List M.MerklePath
  pub size : S → ℕ
  pub empty : S → Bool

module _ (M : Merkle) where
  -- An implementation that overrides the pure virtual functions only.
  abbrev pub with_defaults :
      {S : Type 0} → (S → KeyValueData → S) → (S → Dict ℕ) → IndexInterface M S
  with_defaults rebuild_with timestamps = record {
    rebuild = rebuild_with;
    get_key_timestamps = timestamps;
    get_root_hash = λ s. M.zero_hash;
    get_paths = λ s keys. [];
    size = λ s. 0;
    empty = λ s. true;
  }

  abbrev pub merkle_tree_index : HashOrder → IndexInterface M (MerkleTreeIndex M)
  merkle_tree_index H = record {
    rebuild = λ x kv_data. rebuild M H kv_data;
    get_key_timestamps = get_key_timestamps M H;
    get_root_hash = get_root_hash M;
    get_paths = get_paths M;
    size = size M;
    empty = empty M;
  }

  -- Under the laws of merklecpp, the overriding functions agree with the defaults on a new index.
  new_index-defaults :
      IsMerkle M
      → (H : HashOrder) (keys : List Bytes)
      → let index = merkle_tree_index H in
        let default = with_defaults index.rebuild index.get_key_timestamps in
        let x = new_index M in
        (index.get_root_hash x ≡ default.get_root_hash x)
        × (index.get_paths x keys ≡ default.get_paths x keys)
        × (index.size x ≡ default.size x)
        × (index.empty x ≡ default.empty x)
  unfolding get_root_hash get_paths size empty
  new_index-defaults L H keys =
      let e : M.is_empty M.new_tree ≡ true =
        L.is_empty-num_leaves M.new_tree ∙ ap (λ (n : ℕ). n == 0) L.num_leaves-new_tree in
      (rw e refl, rw e refl, L.num_leaves-new_tree, e)
