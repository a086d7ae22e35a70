-- ===== src/MerkleIndex/Hashing.antt =====
-- `hash_key_value` reads the first 32 bytes of `key:value:timestamp` and no more.
use mathlib.Core.List.{foldl}
use mathlib.Core.Path.{ap₂}
use distributed_kvstore.Prelude.{
  ℕ, zero, suc, ◌≤◌, ◌≡◌, refl, sym, ap, ◌∙◌, List, [], ◌∷◌, ◌++◌, Bytes, if◌then◌else◌, arith,
  length, take,
}
use distributed_kvstore.Dict.{HashOrder}
use distributed_kvstore.Merkle.{Merkle}
use distributed_kvstore.MerkleIndex.{KeyValueData, hash_key_value, rebuild, get_root_hash}
use distributed_kvstore.MerkleIndex.Build.{leaves, tree-rebuild}

-- With a key of `n` bytes one more byte is the colon.
take-append_colon :
    (n : ℕ) (k s t : Bytes)
    → n ≤ length k
    → take (suc n) (k ++ b':' ∷ s) ≡ take (suc n) (k ++ b':' ∷ t)
take-append_colon zero [] s t h = refl
take-append_colon zero (c ∷ k) s t h = refl
take-append_colon (suc n) [] s t h = absurd (omega arith)
take-append_colon (suc n) (c ∷ k) s t h =
    ap (λ (r : Bytes). c ∷ r) (take-append_colon n k s t (omega arith))

module _ (M : Merkle) where
  -- Entries of one key of 31 bytes or more have one leaf hash, whatever their values and timestamps.
  pub hash_long_key :
      (key value value' : Bytes) (timestamp timestamp' : ℕ)
      → 31 ≤ length key
      → hash_key_value M key value timestamp ≡ hash_key_value M key value' timestamp'
  unfolding hash_key_value
  hash_long_key key value value' timestamp timestamp' long =
      ap (λ (b : Bytes). M.sha256_compress (M.write_bytes M.zero_hash b) M.zero_hash)
        (take-append_colon 31 key _ _ long)

  -- Two tables with the same keys in the same order, each of 31 bytes or more.
  abbrev pub SameLongKeys : KeyValueData → KeyValueData → Type 0
  SameLongKeys [] [] = Unit
  SameLongKeys [] (e ∷ d) = ⊥
  SameLongKeys (e ∷ d) [] = ⊥
  SameLongKeys ((k, v) ∷ d) ((k', v') ∷ d') = (31 ≤ length k) × (k ≡ k') × SameLongKeys d d'

  leaves_long :
      (H : HashOrder) (d e : KeyValueData) → SameLongKeys d e → leaves M H d ≡ leaves M H e
  leaves_long H [] [] h = refl
  leaves_long H [] (e ∷ d) h = absurd h
  leaves_long H (e ∷ d) [] h = absurd h
  leaves_long H ((k, (v, t)) ∷ d) ((k', (v', t')) ∷ e) (long, same, h) =
      ap₂ (λ (x : M.Hash) (xs : List M.Hash). x ∷ xs)
        (hash_long_key k v v' t t' long ∙ ap (λ (j : Bytes). hash_key_value M j v' t') same)
        (leaves_long H d e h)

  -- Tables with the same keys in the same order, each key of 31 bytes or more, have the same Merkle
  -- root, whatever their values and timestamps: a comparison of roots takes them for equal.
  pub root_long_keys :
      (H : HashOrder) (d e : KeyValueData)
      → SameLongKeys d e
      → get_root_hash M (rebuild M H d) ≡ get_root_hash M (rebuild M H e)
  unfolding get_root_hash
  root_long_keys H d e h =
      ap (λ (t : M.Tree). if M.is_empty t then M.zero_hash else M.root t)
        (tree-rebuild M H d
          ∙ ap (λ (hs : List M.Hash). foldl M.insert M.new_tree hs) (leaves_long H d e h)
          ∙ sym (tree-rebuild M H e))
