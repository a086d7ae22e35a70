-- ===== src/Node/Paths.antt =====
-- The GET_PATHS command: what a node reads of it.
use mathlib.Core.Logic.{if_neg}
use mathlib.Core.List.{append-nil}
use distributed_kvstore.Prelude.{
  ℕ, ◌≡◌, ◌≢◌, refl, sym, ap, ◌∙◌, Bool, true, false, Option, none, some, List, [], ◌∷◌, ◌++◌,
  Bytes, codes, arith, All,
}
use distributed_kvstore.Text.{bytes_dec}
use distributed_kvstore.Text.Words.{extract, is_space, IsWord}
use distributed_kvstore.Text.Words.Reading.{extract-append, extract-blank, extract-nil}
use distributed_kvstore.Text.Fields.{break_at, fields}
use distributed_kvstore.Dict.{HashOrder, find}
use distributed_kvstore.Text.Hex.{to_hex}
use distributed_kvstore.Merkle.{Merkle}
use distributed_kvstore.MerkleIndex.{MerkleTreeIndex, get_paths, found_paths}
use distributed_kvstore.Node.{
  Node, Reply, dispatch, read_operands, process_command, manager_index, merkle_paths, list_paths,
}
use distributed_kvstore.Node.Reading.{process_command-first}

-- A text with no white space in it, empty or not.
abbrev pub IsSolid : Bytes → Type 0
IsSolid = All (λ c. is_space c ≡ false)

-- The second read of a solid text finds nothing.
extract_solid : (w : Bytes) → IsSolid w → (extract (32 ∷ w) ≡ (w, []))
extract_solid [] h = extract-blank [] ∙ extract-nil
extract_solid (c ∷ w) h =
    extract-blank (c ∷ w)
    ∙ ap extract (sym (append-nil (c ∷ w)))
    ∙ extract-append (c ∷ w) [] (λ e. cc, h) tt

get_paths-IsWord : IsWord (codes "GET_PATHS")
unfolding is_space
get_paths-IsWord = (λ e. cc, ground arith)

abbrev first_byte : Bytes → ℕ
first_byte [] = 0
first_byte (c ∷ s) = c

get_paths_is_no_prefix : codes "GET_PATHS" ≢ codes "PROPAGATE"
get_paths_is_no_prefix = λ e. omega (arith, ap first_byte e)

module _ (M : Merkle) (H : HashOrder) where
  dispatch-get_paths :
      (n : Node M) (now : ℕ) (is_propagated : Bool) (key value rest : Bytes)
      → dispatch M H n now is_propagated (codes "GET_PATHS") key value rest
        ≡ record { node = n; response = merkle_paths M (manager_index M n) rest; sent = [] }
  unfolding dispatch bytes_dec
  dispatch-get_paths n now is_propagated key value rest = refl

  merkle_paths-nil : (x : MerkleTreeIndex M) → merkle_paths M (some x) [] ≡ []
  unfolding break_at fields list_paths
  merkle_paths-nil x = refl

  -- A running node, whose manager has an index, answers every GET_PATHS whose list of keys holds no
  -- white space with the empty text: the list is read as the second word, and the keys are sought
  -- behind the third.
  pub get_paths_unread :
      (n : Node M) (now : ℕ) (keys : Bytes) (x : MerkleTreeIndex M)
      → manager_index M n ≡ some x
      → IsSolid keys
      → process_command M H n now (codes "GET_PATHS " ++ keys)
        ≡ record { node = n; response = []; sent = [] }
  unfolding read_operands is_space
  get_paths_unread n now keys x managed solid =
      process_command-first M H n now (codes "GET_PATHS") (32 ∷ keys) get_paths-IsWord refl
      ∙ rw
          (if_neg (bytes_dec (codes "GET_PATHS") (codes "PROPAGATE")) get_paths_is_no_prefix true
            false)
          (rw (extract_solid keys solid, extract-nil)
            (dispatch-get_paths n now false keys [] []
              ∙ ap
                  (λ (o : Option (MerkleTreeIndex M)).
                    let r : Reply M = record {
                      node = n;
                      response = merkle_paths M o [];
                      sent = [];
                    } in
                    r)
                  managed
              ∙ ap
                  (λ (b : Bytes).
                    let r : Reply M = record { node = n; response = b; sent = [] } in r)
                  (merkle_paths-nil x)))

module _ (M : Merkle) where
  -- In an index that is not empty, the path of a key behind one that the index lacks stands under
  -- the missing key in the response, and the paths that follow are one place off in the same way.
  list_paths-missing :
      (x : MerkleTreeIndex M) (missing key : Bytes) (i : ℕ) (keys : List Bytes)
      → M.is_empty x.merkle_tree ≡ false
      → find missing x.key_to_index ≡ none
      → find key x.key_to_index ≡ some i
      → list_paths M (missing ∷ key ∷ keys) (get_paths M x (missing ∷ key ∷ keys))
        ≡ missing
          ++ b','
            ∷ (to_hex (M.serialise (M.path x.merkle_tree i))
                ++ b';' ∷ list_paths M (key ∷ keys) (get_paths M x keys))
  unfolding list_paths get_paths found_paths
  list_paths-missing x missing key i keys full e e' = rw (full, found_paths, e, e') refl
