-- ===== src/MerkleIndex.antt =====
-- anti_entropy/index_interface.hpp and anti_entropy/merkle_tree_index.hpp: the Merkle tree over the
-- entries of a store, with the leaf of each key. Each method holds the mutex for its whole body, so
-- it is one step.
pub mod Interface
pub mod Build
pub mod Paths
pub mod Hashing
pub mod Blocks
use distributed_kvstore.Prelude.{
  ℕ, suc, ◌+◌, Bool, true, false, Option, none, some, List, [], ◌∷◌, ◌++◌, Bytes, take,
  if◌then◌else◌,
}
use distributed_kvstore.Text.Decimal.{to_string}
use distributed_kvstore.Dict.{Dict, HashOrder, find, assign}
use distributed_kvstore.Merkle.{Merkle}

-- `IndexInterface::KeyValueData`: key to value and timestamp.
abbrev pub KeyValueData : Type 0
KeyValueData = Dict (Bytes × ℕ)

pub record MerkleTreeIndex (M : Merkle) : Type 0 where
  pub merkle_tree : M.Tree
  pub key_to_index : Dict ℕ

module _ (M : Merkle) where
  -- `MerkleTreeIndex()`
  abbrev pub new_index : MerkleTreeIndex M
  new_index = record { merkle_tree = M.new_tree; key_to_index = [] }

  -- `oss << key << ":" << value << ":" << timestamp`
  abbrev pub combined : Bytes → Bytes → ℕ → Bytes
  combined key value timestamp = key ++ b':' ∷ (value ++ b':' ∷ to_string timestamp)

  unfoldable pub hash_key_value : Bytes → Bytes → ℕ → M.Hash
  hash_key_value key value timestamp =
      let left = M.write_bytes M.zero_hash (take 32 (combined key value timestamp)) in
      M.sha256_compress left M.zero_hash

  -- The loop of `rebuild`.
  unfoldable pub insert_leaves :
      HashOrder → KeyValueData → ℕ → MerkleTreeIndex M → MerkleTreeIndex M
  insert_leaves H [] index x = x
  insert_leaves H ((key, (value, timestamp)) ∷ kv_data) index x =
      insert_leaves H kv_data (suc index) (record {
        merkle_tree = M.insert x.merkle_tree (hash_key_value key value timestamp);
        key_to_index = assign H key index x.key_to_index;
      })

  unfoldable pub rebuild : HashOrder → KeyValueData → MerkleTreeIndex M
  unfolding insert_leaves
  rebuild H kv_data = insert_leaves H kv_data 0 new_index

  unfoldable pub get_root_hash : MerkleTreeIndex M → M.Hash
  get_root_hash x = if M.is_empty x.merkle_tree then M.zero_hash else M.root x.merkle_tree

  -- The loop stops at the end of the shorter list.
  unfoldable pub differing : M.Hash → List M.MerklePath → List Bytes → List Bytes
  differing local_root [] keys = []
  differing local_root (p ∷ paths) [] = []
  differing local_root (p ∷ paths) (k ∷ keys) =
      let rest = differing local_root paths keys in if M.verify p local_root then rest else k ∷ rest

  unfoldable pub find_differences : MerkleTreeIndex M → List M.MerklePath → List Bytes → List Bytes
  unfolding differing
  find_differences x remote_paths keys =
      if M.is_empty x.merkle_tree then [] else differing (M.root x.merkle_tree) remote_paths keys

  -- A key that the index lacks is skipped.
  unfoldable pub found_paths : MerkleTreeIndex M → List Bytes → List M.MerklePath
  found_paths x [] = []
  found_paths x (k ∷ keys) =
      let rest = found_paths x keys in
      elim (find k x.key_to_index) [ none ↦ rest | some i ↦ M.path x.merkle_tree i ∷ rest ]

  unfoldable pub get_paths : MerkleTreeIndex M → List Bytes → List M.MerklePath
  unfolding found_paths
  get_paths x keys = if M.is_empty x.merkle_tree then [] else found_paths x keys

  unfoldable pub size : MerkleTreeIndex M → ℕ
  size x = M.num_leaves x.merkle_tree

  unfoldable pub empty : MerkleTreeIndex M → Bool
  empty x = M.is_empty x.merkle_tree

  -- Every timestamp is the placeholder 0.
  unfoldable pub zero_timestamps : HashOrder → Dict ℕ → Dict ℕ → Dict ℕ
  zero_timestamps H [] result = result
  zero_timestamps H ((key, i) ∷ d) result = zero_timestamps H d (assign H key 0 result)

  unfoldable pub get_key_timestamps : HashOrder → MerkleTreeIndex M → Dict ℕ
  unfolding zero_timestamps
  get_key_timestamps H x = zero_timestamps H x.key_to_index []
