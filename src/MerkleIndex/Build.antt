-- ===== src/MerkleIndex/Build.antt =====
-- What `rebuild` builds: a leaf for each entry in the order of iteration, and the leaf of each key.
use mathlib.Core.List.{foldl}
use distributed_kvstore.Prelude.{
  ℕ, suc, ◌+◌, ◌<◌, ◌≡◌, refl, sym, ap, ◌∙◌, Option, none, some, List, [], ◌∷◌, Bytes,
  if◌then◌else◌, arith, length,
}
use distributed_kvstore.Text.{◌==◌}
use distributed_kvstore.Dict.{Dict, HashOrder, find, NodupKeys}
use distributed_kvstore.Dict.Lookup.{find-assign, assign-NodupKeys}
use distributed_kvstore.Dict.Merge.{or_else, or_else-none}
use distributed_kvstore.Merkle.{Merkle, IsMerkle}
use distributed_kvstore.MerkleIndex.{
  MerkleTreeIndex, KeyValueData, hash_key_value, insert_leaves, rebuild,
}

-- The place of a key in a table, counted from `index`.
abbrev pub position {ℓ} : {V : Type ℓ} → Bytes → Dict V → ℕ → Option ℕ
position k [] index = none
position k ((j, v) ∷ d) index = if k == j then some index else position k d (suc index)

position_absent :
    {V : Type 0} (k : Bytes) (d : Dict V) (index : ℕ) → find k d ≡ none → position k d index ≡ none
unfolding find
position_absent k [] index h = refl
position_absent k ((j, v) ∷ d) index h = ground (arith, position_absent k d (suc index))

pub position-lt :
    {V : Type 0} (k : Bytes) (d : Dict V) (index : ℕ) {i : ℕ}
    → position k d index ≡ some i
    → i < index + length d
position-lt k [] index {i} h = cc
position-lt k ((j, v) ∷ d) index {i} h = ground (arith, position-lt k d (suc index) {i = i})

module _ (M : Merkle) (H : HashOrder) where
  -- The leaf hashes of a table, in its order.
  abbrev pub leaves : KeyValueData → List M.Hash
  leaves [] = []
  leaves ((key, (value, timestamp)) ∷ d) = hash_key_value M key value timestamp ∷ leaves d

  tree-insert_leaves :
      (d : KeyValueData) (index : ℕ) (x : MerkleTreeIndex M)
      → (insert_leaves M H d index x).merkle_tree ≡ foldl M.insert x.merkle_tree (leaves d)
  unfolding insert_leaves
  tree-insert_leaves [] index x = refl
  tree-insert_leaves ((key, (value, timestamp)) ∷ d) index x = tree-insert_leaves d (suc index) _

  find-insert_leaves :
      (d : KeyValueData) (index : ℕ) (x : MerkleTreeIndex M) (k : Bytes)
      → NodupKeys d
      → NodupKeys x.key_to_index
      → find k (insert_leaves M H d index x).key_to_index
        ≡ or_else (position k d index) (find k x.key_to_index)
  unfolding insert_leaves
  find-insert_leaves [] index x k n m = refl
  find-insert_leaves ((key, (value, timestamp)) ∷ d) index x k (fresh, n) m =
      find-insert_leaves d (suc index) _ k n (assign-NodupKeys H key index x.key_to_index m)
      ∙ ground (
        arith,
        find-assign H key k index x.key_to_index m,
        position_absent key d (suc index) fresh,
      )

  num_leaves-foldl :
      IsMerkle M
      → (hs : List M.Hash) (t : M.Tree)
      → M.num_leaves (foldl M.insert t hs) ≡ M.num_leaves t + length hs
  num_leaves-foldl L [] t = omega arith
  num_leaves-foldl L (h ∷ hs) t =
      omega (arith, num_leaves-foldl L hs (M.insert t h), L.num_leaves-insert t h)

  length-leaves : (d : KeyValueData) → length (leaves d) ≡ length d
  length-leaves [] = refl
  length-leaves ((key, (value, timestamp)) ∷ d) = ap suc (length-leaves d)

  pub tree-rebuild :
      (d : KeyValueData) → (rebuild M H d).merkle_tree ≡ foldl M.insert M.new_tree (leaves d)
  unfolding rebuild
  tree-rebuild d = tree-insert_leaves d 0 _

  -- The tree has one leaf for each entry, under the laws of merklecpp.
  num_leaves-rebuild :
      IsMerkle M → (d : KeyValueData) → M.num_leaves (rebuild M H d).merkle_tree ≡ length d
  num_leaves-rebuild L d = rw tree-rebuild (
      omega
        (arith, num_leaves-foldl L (leaves d) M.new_tree, L.num_leaves-new_tree, length-leaves d))

  -- Of a table that holds no key twice, the index has each key at its place in the order of
  -- iteration, whose leaf is its entry's, and no other key.
  pub find-rebuild :
      (d : KeyValueData) (k : Bytes)
      → NodupKeys d
      → find k (rebuild M H d).key_to_index ≡ position k d 0
  unfolding rebuild find
  find-rebuild d k n = find-insert_leaves d 0 _ k n tt ∙ or_else-none (position k d 0)

-- Every leaf that the index names is in its tree.
pub record IsIndexed (M : Merkle) (x : MerkleTreeIndex M) : Type 0 where
  pub in_tree :
      (k : Bytes) (i : ℕ) → find k x.key_to_index ≡ some i → i < M.num_leaves x.merkle_tree

module _ (M : Merkle) (H : HashOrder) where
  -- An index that is built from a table that holds no key twice names leaves of its tree only, under
  -- the laws of merklecpp.
  pub rebuild-IsIndexed :
      IsMerkle M → (d : KeyValueData) → NodupKeys d → IsIndexed M (rebuild M H d)
  rebuild-IsIndexed L d n = record {
    in_tree = λ k i h. omega (
      arith,
      num_leaves-rebuild M H L d,
      position-lt k d 0 {i = i} (sym (find-rebuild M H d k n) ∙ h),
    );
  }
