-- ===== src/MerkleIndex/Blocks.antt =====
-- Entries that `hash_key_value` does not tell apart.
use mathlib.Core.List.{foldl, append_assoc}
use distributed_kvstore.Prelude.{
  ℕ, ◌≡◌, refl, sym, ap, ◌∙◌, List, [], ◌∷◌, ◌++◌, Bytes, if◌then◌else◌, take,
}
use distributed_kvstore.Text.Decimal.{to_string}
use distributed_kvstore.Dict.{HashOrder}
use distributed_kvstore.Merkle.{Merkle}
use distributed_kvstore.MerkleIndex.{KeyValueData, combined, hash_key_value, rebuild, get_root_hash}
use distributed_kvstore.MerkleIndex.Build.{leaves, tree-rebuild}

module _ (M : Merkle) where
  combined_shifted :
      (a b c : Bytes) (timestamp : ℕ)
      → combined M (a ++ b':' ∷ b) c timestamp ≡ combined M a (b ++ b':' ∷ c) timestamp
  combined_shifted a b c timestamp =
      let stamp = b':' ∷ to_string timestamp in
      append_assoc a (b':' ∷ b) (b':' ∷ (c ++ stamp))
      ∙ sym (ap (λ (s : Bytes). a ++ b':' ∷ s) (append_assoc b (b':' ∷ c) stamp))

  hash_shifted :
      (a b c : Bytes) (timestamp : ℕ)
      → hash_key_value M (a ++ b':' ∷ b) c timestamp ≡ hash_key_value M a (b ++ b':' ∷ c) timestamp
  unfolding hash_key_value
  hash_shifted a b c timestamp =
      ap (λ (s : Bytes). M.sha256_compress (M.write_bytes M.zero_hash (take 32 s)) M.zero_hash)
        (combined_shifted a b c timestamp)

  leaves-append :
      (H : HashOrder) (d e : KeyValueData) → leaves M H (d ++ e) ≡ leaves M H d ++ leaves M H e
  leaves-append H [] e = refl
  leaves-append H ((k, (v, t)) ∷ d) e =
      ap (λ (hs : List M.Hash). hash_key_value M k v t ∷ hs) (leaves-append H d e)

  -- Where a colon moves from the end of a key to the front of its value, with what stands between, the
  -- Merkle root stays: a comparison of roots takes an entry of one key for an entry of another.
  pub root_shifted_colon :
      (H : HashOrder) (d e : KeyValueData) (a b c : Bytes) (timestamp : ℕ)
      → get_root_hash M (rebuild M H (d ++ (a ++ b':' ∷ b, (c, timestamp)) ∷ e))
        ≡ get_root_hash M (rebuild M H (d ++ (a, (b ++ b':' ∷ c, timestamp)) ∷ e))
  unfolding get_root_hash
  root_shifted_colon H d e a b c timestamp =
      let left : KeyValueData = d ++ (a ++ b':' ∷ b, (c, timestamp)) ∷ e in
      let right : KeyValueData = d ++ (a, (b ++ b':' ∷ c, timestamp)) ∷ e in
      ap (λ (t : M.Tree). if M.is_empty t then M.zero_hash else M.root t)
        (tree-rebuild M H left
          ∙ ap (λ (hs : List M.Hash). foldl M.insert M.new_tree hs)
              (leaves-append H d _
                ∙ ap (λ (h : M.Hash). leaves M H d ++ h ∷ leaves M H e)
                    (hash_shifted a b c timestamp)
                ∙ sym (leaves-append H d _))
          ∙ sym (tree-rebuild M H right))
