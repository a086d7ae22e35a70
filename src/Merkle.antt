-- ===== src/Merkle.antt =====
-- The library merklecpp, whose sources are not in the repository: its types and the operations that
-- the program calls (a parameter of the model), and the documented behaviour that proofs rely on.
use distributed_kvstore.Prelude.{ℕ, suc, ◌≡◌, ◌↔◌, ◌<◌, Bool, true, Bytes, Result, ok, ◌==◌, All}

pub record Merkle : Type 1 where
  pub Hash : Type 0
  pub Tree : Type 0
  pub MerklePath : Type 0
  -- `merkle::Hash()`
  pub zero_hash : Hash
  -- `memcpy` of at most 32 bytes over the front of `bytes`
  pub write_bytes : Hash → Bytes → Hash
  pub hash_string : Hash → Bytes
  -- `sha256_compress(left, right, result)`, as a function into `result`
  pub sha256_compress : Hash → Hash → Hash
  -- `merkle::Tree()`
  pub new_tree : Tree
  pub insert : Tree → Hash → Tree
  pub num_leaves : Tree → ℕ
  pub is_empty : Tree → Bool
  pub root : Tree → Hash
  pub path : Tree → ℕ → MerklePath
  pub verify : MerklePath → Hash → Bool
  -- the conversion of a path to its bytes, and the constructor from bytes
  pub serialise : MerklePath → Bytes
  pub deserialise : Bytes → Result MerklePath

-- A path holds the hashes from a leaf up to the root of its tree: it verifies against that root only.
pub record IsMerkle (M : Merkle) : Type 0 where
  pub num_leaves-new_tree : M.num_leaves M.new_tree ≡ 0
  pub num_leaves-insert :
      (t : M.Tree) (h : M.Hash) → M.num_leaves (M.insert t h) ≡ suc (M.num_leaves t)
  pub is_empty-num_leaves : (t : M.Tree) → M.is_empty t ≡ (M.num_leaves t == 0)
  pub verify-path :
      (t : M.Tree) (i : ℕ) (r : M.Hash)
      → i < M.num_leaves t
      → (M.verify (M.path t i) r ≡ true) ↔ (M.root t ≡ r)
  pub deserialise-serialise : (p : M.MerklePath) → M.deserialise (M.serialise p) ≡ ok p
  pub serialise-bytes : (p : M.MerklePath) → All (λ b. b < 256) (M.serialise p)
