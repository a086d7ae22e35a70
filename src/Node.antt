-- ===== src/Node.antt =====
-- node.hpp and node.cpp: the class Node. A command that a client sends is handled to its end on the
-- thread of the io_context. What `propagate_update` hands to a thread of its own is in the reply.
pub mod Reading
pub mod Main
pub mod Sent
pub mod Contract
pub mod Cases
pub mod Messages
pub mod Fits
pub mod Refinement
pub mod Replies
pub mod Running
pub mod Propagation
pub mod Paths
use distributed_kvstore.Prelude.{
  ℕ, zero, suc, ◌+◌, ◌*◌, ◌^◌, Bool, true, false, ◌&&◌, Option, none, some, List, [], ◌∷◌, ◌++◌,
  Bytes, codes, ltb, if◌then◌else◌, get_elem?, length,
}
use distributed_kvstore.Text.{◌==◌}
use distributed_kvstore.Text.Words.{extract}
use distributed_kvstore.Text.Decimal.{to_string}
use distributed_kvstore.Text.Fields.{break_at, fields}
use distributed_kvstore.Text.Hex.{to_hex}
use distributed_kvstore.Dict.{HashOrder}
use distributed_kvstore.Merkle.{Merkle}
use distributed_kvstore.MerkleIndex.{MerkleTreeIndex, new_index, get_root_hash, get_paths}
use distributed_kvstore.Store.{
  KeyValueStore, Shared, Memory, new_store, get, get_all_keys_with_timestamps,
  get_value_with_timestamp, set, del, set_merkle_index,
}

pub data SyncMode : Type 0 where
  full_state_exchange merkle_tree : SyncMode

-- `AntiEntropyManager`; its reference to the store is the node's store. A `short` is its bit pattern.
pub record AntiEntropyManager : Type 0 where
  pub peer_host : Bytes
  pub peer_port : ℕ
  pub sync_mode : SyncMode
  pub merkle_index : Option ℕ

-- `AntiEntropyManager(…)`; the default mode is `MERKLE_TREE`.
abbrev pub new_manager : Bytes → ℕ → Option ℕ → SyncMode → AntiEntropyManager
new_manager peer_host peer_port merkle_index mode = record {
  peer_host = peer_host;
  peer_port = peer_port;
  sync_mode = mode;
  merkle_index = merkle_index;
}

pub record Node (M : Merkle) : Type 0 where
  pub shared : Shared M
  pub peer_host : Bytes
  pub peer_port : ℕ
  pub anti_entropy_manager : Option AntiEntropyManager

-- The reply to a command: the node after it, the response, and what is handed to propagation.
pub record Reply (M : Merkle) : Type 0 where
  pub node : Node M
  pub response : Bytes
  pub sent : List Bytes

-- `!peer_host_.empty() && peer_port_ > 0`
unfoldable pub has_peer : Bytes → ℕ → Bool
has_peer [] peer_port = false
has_peer (c ∷ host) peer_port = ltb 0 peer_port && ltb peer_port (2 ^ 15)

-- `ss << key << ":" << ts << ";"` for each entry.
unfoldable pub list_keys : List (Bytes × ℕ) → Bytes
list_keys [] = []
list_keys ((key, timestamp) ∷ l) = key ++ b':' ∷ (to_string timestamp ++ b';' ∷ list_keys l)

module _ (M : Merkle) where
  -- `Node::Node`, with nothing in the memory yet.
  unfoldable pub new_node : Bytes → ℕ → Node M
  new_node peer_host peer_port = record {
    shared = record { kv = new_store; memory = [] };
    peer_host = peer_host;
    peer_port = peer_port;
    anti_entropy_manager = none;
  }

  -- The object behind a `shared_ptr`, which keeps it alive: the address is in the memory.
  abbrev pub deref : Memory M → ℕ → MerkleTreeIndex M
  deref memory p = elim (get_elem? memory p) [ none ↦ new_index M | some x ↦ x ]

  -- `anti_entropy_manager_ && anti_entropy_manager_->get_merkle_index()`
  abbrev index_of : Option AntiEntropyManager → Option ℕ
  index_of none = none
  index_of (some m) = m.merkle_index

  abbrev pub manager_index : Node M → Option (MerkleTreeIndex M)
  manager_index n = elim (index_of n.anti_entropy_manager) [
    | none ↦ none
    | some p ↦ some (deref n.shared.memory p)
  ]

  unfoldable pub propagate_update : Node M → Bytes → List Bytes
  propagate_update n command = if has_peer n.peer_host n.peer_port then command ∷ [] else []

  -- `"PROPAGATE SET " + key + " " + value + " " + std::to_string(timestamp)`
  abbrev pub propagated : Bytes → Bytes → Bytes → ℕ → Bytes
  propagated verb key value timestamp =
      codes "PROPAGATE " ++ (verb ++ 32 ∷ (key ++ 32 ∷ (value ++ 32 ∷ to_string timestamp)))

  -- `ss << keys[i] << "," << path_ss.str() << ";"` up to the end of the shorter vector.
  unfoldable pub list_paths : List Bytes → List M.MerklePath → Bytes
  list_paths [] paths = []
  list_paths (k ∷ keys) [] = []
  list_paths (k ∷ keys) (p ∷ paths) =
      k ++ b',' ∷ (to_hex (M.serialise p) ++ b';' ∷ list_paths keys paths)

  abbrev pub answer : Node M → Bytes → Reply M
  answer n response = record { node = n; response = response; sent = [] }

  abbrev pub merkle_root : Option (MerkleTreeIndex M) → Bytes
  merkle_root none = codes "EMPTY"
  merkle_root (some x) = M.hash_string (get_root_hash M x)

  -- The keys stand behind the two words that were read before: `std::getline(iss, rest_of_command)`.
  abbrev pub merkle_paths : Option (MerkleTreeIndex M) → Bytes → Bytes
  merkle_paths none rest = codes "EMPTY"
  merkle_paths (some x) rest =
      let keys = fields b';' (break_at 10 rest).0 in list_paths keys (get_paths M x keys)

  module _ (H : HashOrder) where
    abbrev pub set_command : Node M → ℕ → Bool → Bytes → Bytes → Reply M
    set_command n now is_propagated key value =
        let n' = record n { shared = (set H M n.shared key value now).0 } in
        record {
          node = n';
          response = codes "OK";
          sent =
              if is_propagated
              then []
              else propagate_update n' (propagated (codes "SET") key value now);
        }

    abbrev pub del_command : Node M → ℕ → Bool → Bytes → Bytes → Reply M
    del_command n now is_propagated key value =
        let n' = record n { shared = (del H M n.shared key now).0 } in
        record {
          node = n';
          response = codes "OK";
          sent =
              if is_propagated
              then []
              else propagate_update n' (propagated (codes "DEL") key value now);
        }

    -- `Node::process_command` after the words are read; `rest` is the unread text.
    unfoldable pub dispatch : Node M → ℕ → Bool → Bytes → Bytes → Bytes → Bytes → Reply M
    dispatch n now is_propagated action key value rest =
        if action == codes "GET"
        then answer n (get n.shared.kv key)
        else if action == codes "SET"
        then set_command n now is_propagated key value
        else if action == codes "DEL"
        then del_command n now is_propagated key value
        else if action == codes "GET_ALL"
        then answer n (list_keys (get_all_keys_with_timestamps n.shared.kv))
        else if action == codes "GET_MERKLE_ROOT"
        then answer n (merkle_root (manager_index n))
        else if action == codes "GET_PATHS"
        then answer n (merkle_paths (manager_index n) rest)
        else answer n (codes "Invalid command")

    -- `iss >> key >> value`, then the dispatch.
    unfoldable pub read_operands : Node M → ℕ → Bool → Bytes → Bytes → Reply M
    read_operands n now is_propagated action s =
        let (key, s') = extract s in
        let (value, rest) = extract s' in dispatch n now is_propagated action key value rest

    -- `now` is what `current_timestamp()` returns.
    unfoldable pub process_command : Node M → ℕ → Bytes → Reply M
    process_command n now command =
        let (first, s) = extract command in
        let (action, s') = extract s in
        if first == codes "PROPAGATE"
        then read_operands n now true action s'
        else read_operands n now false first s

    -- `make_shared<MerkleTreeIndex>()` takes the next address.
    abbrev with_index : Shared M → Shared M
    with_index s =
        set_merkle_index H M (record s { memory = s.memory ++ new_index M ∷ [] })
          (some (length s.memory))

    unfoldable pub start_anti_entropy : Node M → Node M
    start_anti_entropy n = record n {
      shared = with_index n.shared;
      anti_entropy_manager =
          some (new_manager n.peer_host n.peer_port (some (length n.shared.memory)) merkle_tree);
    }

-- `send_update_to_peer`: what is handed to propagation.
unfoldable pub send_update_to_peer : (M : Merkle) → Node M → Bytes → List Bytes
unfolding propagate_update
send_update_to_peer M n key =
    let v = get_value_with_timestamp n.shared.kv key in
    propagate_update M n (propagated M (codes "SET") key v.value v.timestamp)
