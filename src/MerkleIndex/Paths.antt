-- ===== src/MerkleIndex/Paths.antt =====
-- `get_paths` and `find_differences`: what the comparison of paths can tell.
use distributed_kvstore.Prelude.{
  ℕ, suc, ◌≡◌, ◌≢◌, refl, ite, ap, Bool, true, false, some, List, [], ◌∷◌, Bytes, if◌then◌else◌,
  arith, All, length, Bool-cases, inl, inr, Option-cases,
}
use distributed_kvstore.Dict.{find}
use distributed_kvstore.Merkle.{Merkle, IsMerkle}
use distributed_kvstore.MerkleIndex.{
  MerkleTreeIndex, differing, find_differences, found_paths, get_paths,
}
use distributed_kvstore.MerkleIndex.Build.{IsIndexed}

module _ (M : Merkle) where
  -- Every path verifies against a root, or none does.
  abbrev AllVerify : Bool → M.Hash → List M.MerklePath → Type 0
  AllVerify b r = All (λ p. M.verify p r ≡ b)

  differing_none :
      (r : M.Hash) (ps : List M.MerklePath) (keys : List Bytes)
      → AllVerify true r ps
      → differing M r ps keys ≡ []
  unfolding differing
  differing_none r [] keys h = refl
  differing_none r (p ∷ ps) [] h = refl
  differing_none r (p ∷ ps) (k ∷ keys) (hp, h) = rw hp (differing_none r ps keys h)

  differing_all :
      (r : M.Hash) (ps : List M.MerklePath) (keys : List Bytes)
      → AllVerify false r ps
      → length ps ≡ length keys
      → differing M r ps keys ≡ keys
  unfolding differing
  differing_all r [] [] h e = refl
  differing_all r [] (k ∷ keys) h e = absurd (omega arith)
  differing_all r (p ∷ ps) [] h e = refl
  differing_all r (p ∷ ps) (k ∷ keys) (hp, h) e =
      rw hp (ap (λ (ks : List Bytes). k ∷ ks) (differing_all r ps keys h (omega arith)))

  -- The index has every one of the keys.
  abbrev pub HasKeys : MerkleTreeIndex M → List Bytes → Type 0
  HasKeys x = All (λ k. (i : ℕ) × (find k x.key_to_index ≡ some i))

  module _ (L : IsMerkle M) (x : MerkleTreeIndex M) (v : IsIndexed M x) where
    verify_own :
        (k : Bytes) (i : ℕ)
        → find k x.key_to_index ≡ some i
        → M.verify (M.path x.merkle_tree i) (M.root x.merkle_tree) ≡ true
    verify_own k i h = (L.verify-path x.merkle_tree i _ (v.in_tree k i h)).1 refl

    verify_other :
        (k : Bytes) (i : ℕ) (r : M.Hash)
        → find k x.key_to_index ≡ some i
        → M.root x.merkle_tree ≢ r
        → M.verify (M.path x.merkle_tree i) r ≡ false
    verify_other k i r h differ = elim (Bool-cases (M.verify (M.path x.merkle_tree i) r)) [
      | inl e ↦ absurd (differ ((L.verify-path x.merkle_tree i r (v.in_tree k i h)).0 e))
      | inr e ↦ e
    ]

    own_paths : (keys : List Bytes) → AllVerify true (M.root x.merkle_tree) (found_paths M x keys)
    unfolding found_paths
    own_paths [] = tt
    own_paths (k ∷ keys) = elim (Option-cases (find k x.key_to_index)) [
      | inl e ↦ rw (e, found_paths) (own_paths keys)
      | inr (i, e) ↦ rw (e, found_paths) (verify_own k i e, own_paths keys)
    ]

    other_paths :
        (r : M.Hash) (keys : List Bytes)
        → HasKeys x keys
        → M.root x.merkle_tree ≢ r
        → AllVerify false r (found_paths M x keys) × (length (found_paths M x keys) ≡ length keys)
    unfolding found_paths
    other_paths r [] h differ = (tt, refl)
    other_paths r (k ∷ keys) ((i, e), h) differ =
        let (rest, len) = other_paths r keys h differ in
        rw (e, found_paths) ((verify_other k i r e differ, rest), ap suc len)

    some_leaf :
        (k : Bytes) (i : ℕ) → find k x.key_to_index ≡ some i → M.is_empty x.merkle_tree ≡ false
    some_leaf k i h = ground (arith, v.in_tree k i h, L.is_empty-num_leaves x.merkle_tree)

    get_paths-found :
        (keys : List Bytes) → HasKeys x keys → get_paths M x keys ≡ found_paths M x keys
    unfolding get_paths
    get_paths-found [] h = ground arith
    get_paths-found (k ∷ keys) ((i, e), h) = rw (some_leaf k i e) refl

    length-found_paths :
        (keys : List Bytes) → HasKeys x keys → length (found_paths M x keys) ≡ length keys
    unfolding found_paths
    length-found_paths [] h = refl
    length-found_paths (k ∷ keys) ((i, e), h) =
        rw (e, found_paths) (ap suc (length-found_paths keys h))

    -- As many paths as keys.
    pub length-get_paths :
        (keys : List Bytes) → HasKeys x keys → length (get_paths M x keys) ≡ length keys
    length-get_paths keys h = rw (get_paths-found keys h) (length-found_paths keys h)

    none_found :
        (y : MerkleTreeIndex M) (keys : List Bytes)
        → M.root x.merkle_tree ≡ M.root y.merkle_tree
        → find_differences M y (found_paths M x keys) keys ≡ []
    unfolding find_differences
    none_found y keys same = elim (Bool-cases (M.is_empty y.merkle_tree)) [
      | inl e ↦ rw e refl
      | inr e ↦ rw (e, ← same) (differing_none _ _ keys (own_paths keys))
    ]

    all_found :
        (y : MerkleTreeIndex M) (keys : List Bytes)
        → HasKeys x keys
        → M.root x.merkle_tree ≢ M.root y.merkle_tree
        → find_differences M y (found_paths M x keys) keys
          ≡ (if M.is_empty y.merkle_tree then [] else keys)
    unfolding find_differences
    all_found y keys h differ = elim (Bool-cases (M.is_empty y.merkle_tree)) [
      | inl e ↦ rw e refl
      | inr e ↦
          let (v, len) = other_paths (M.root y.merkle_tree) keys h differ in
          rw e (differing_all _ _ keys v len)
    ]

    -- The comparison is all or nothing, under the laws of merklecpp. Of paths that an index, whose
    -- keys name leaves of its tree, gives for keys that it has, another index finds no difference if
    -- its root is the same, and a difference in every key if it is not: unless it is empty, when it
    -- finds none.
    pub find_differences-get_paths :
        (y : MerkleTreeIndex M) (keys : List Bytes)
        → HasKeys x keys
        → (same_root : Dec (M.root x.merkle_tree ≡ M.root y.merkle_tree))
        → find_differences M y (get_paths M x keys) keys
          ≡ ite same_root [] (if M.is_empty y.merkle_tree then [] else keys)
    find_differences-get_paths y keys h (yes same) =
        rw (get_paths-found keys h) (none_found y keys same)
    find_differences-get_paths y keys h (no differ) =
        rw (get_paths-found keys h) (all_found y keys h differ)
