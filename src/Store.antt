-- ===== src/Store.antt =====
-- kv_store.hpp: the class KeyValueStore. Every method holds the recursive mutex for its whole body,
-- so it is one step. The Merkle index is a shared object: it lives in a memory of indices, and the
-- store has its address.
pub mod Effects
pub mod Replies
pub mod Updates
pub mod IndexSync
use distributed_kvstore.Prelude.{
  ℕ, ◌+◌, Bool, true, false, Option, none, some, List, [], ◌∷◌, ◌++◌, Bytes, codes, leb,
  if◌then◌else◌, set_elem, map,
}
use distributed_kvstore.Text.{◌==◌}
use distributed_kvstore.Text.Words.{extract}
use distributed_kvstore.Text.Decimal.{to_string}
use distributed_kvstore.Dict.{Dict, HashOrder, find, assign, erase}
use distributed_kvstore.Merkle.{Merkle}
use distributed_kvstore.MerkleIndex.{MerkleTreeIndex, KeyValueData, rebuild}

pub record ValueWithTimestamp : Type 0 where
  pub value : Bytes
  pub timestamp : ℕ

pub record KeyValueStore : Type 0 where
  pub store : Dict ValueWithTimestamp
  pub merkle_index : Option ℕ

-- The indices that `make_shared` has allocated, by address.
abbrev pub Memory : Merkle → Type 0
Memory M = List (MerkleTreeIndex M)

-- A store with the memory that it shares.
pub record Shared (M : Merkle) : Type 0 where
  pub kv : KeyValueStore
  pub memory : Memory M

abbrev pub new_store : KeyValueStore
new_store = record { store = []; merkle_index = none }

abbrev value_or_empty : Option ValueWithTimestamp → Bytes
value_or_empty none = []
value_or_empty (some v) = v.value

unfoldable pub get : KeyValueStore → Bytes → Bytes
unfolding find
get s key = value_or_empty (find key s.store)

abbrev entry_or_zero : Option ValueWithTimestamp → ValueWithTimestamp
entry_or_zero none = record { value = []; timestamp = 0 }
entry_or_zero (some v) = v

unfoldable pub get_value_with_timestamp : KeyValueStore → Bytes → ValueWithTimestamp
unfolding find
get_value_with_timestamp s key = entry_or_zero (find key s.store)

unfoldable pub get_all_keys_with_timestamps : KeyValueStore → List (Bytes × ℕ)
get_all_keys_with_timestamps s = map (λ (key, v). (key, v.timestamp)) s.store

-- `it == store_.end() || timestamp >= it->second.timestamp`
abbrev pub may_set : Option ValueWithTimestamp → ℕ → Bool
may_set none timestamp = true
may_set (some v) timestamp = leb v.timestamp timestamp

-- `it != store_.end() && timestamp >= it->second.timestamp`
abbrev pub may_del : Option ValueWithTimestamp → ℕ → Bool
may_del none timestamp = false
may_del (some v) timestamp = leb v.timestamp timestamp

-- `result += key + ":" + std::to_string(value_ts.second) + ";"`
unfoldable pub list_data : KeyValueData → Bytes
list_data [] = []
list_data ((key, (value, timestamp)) ∷ d) =
    key ++ b':' ∷ (to_string timestamp ++ b';' ∷ list_data d)

module _ (H : HashOrder) where
  -- The loop of `get_all_key_value_data`, which fills a second table.
  unfoldable pub copy_entries : Dict ValueWithTimestamp → KeyValueData → KeyValueData
  copy_entries [] result = result
  copy_entries ((key, v) ∷ d) result = copy_entries d (assign H key (v.value, v.timestamp) result)

  unfoldable pub get_all_key_value_data : KeyValueStore → KeyValueData
  unfolding copy_entries
  get_all_key_value_data s = copy_entries s.store []

  module _ (M : Merkle) where
    -- `if (merkle_index) merkle_index->rebuild(get_all_key_value_data())`
    unfoldable pub rebuild_index : KeyValueStore → Memory M → Memory M
    rebuild_index s memory = elim s.merkle_index [
      | none ↦ memory
      | some p ↦ set_elem memory p (rebuild M H (get_all_key_value_data s))
    ]

    abbrev pub with_store : Shared M → Dict ValueWithTimestamp → Shared M
    with_store s d =
        let kv = record s.kv { store = d } in record { kv = kv; memory = rebuild_index kv s.memory }

    unfoldable pub set : Shared M → Bytes → Bytes → ℕ → Shared M × Bool
    set s key value timestamp =
        if may_set (find key s.kv.store) timestamp
        then (
          with_store s (assign H key (record { value = value; timestamp = timestamp }) s.kv.store),
          true,
        )
        else (s, false)

    unfoldable pub del : Shared M → Bytes → ℕ → Shared M × Bool
    del s key timestamp =
        if may_del (find key s.kv.store) timestamp
        then (with_store s (erase key s.kv.store), true)
        else (s, false)

    unfoldable pub set_merkle_index : Shared M → Option ℕ → Shared M
    set_merkle_index s index =
        let kv = record s.kv { merkle_index = index } in
        record { kv = kv; memory = rebuild_index kv s.memory }

    abbrev pub set_reply : Shared M × Bool → Shared M × Bytes
    set_reply (s, done) = (s, if done then codes "OK" else codes "ERROR: Outdated timestamp")

    abbrev pub del_reply : Shared M × Bool → Shared M × Bytes
    del_reply (s, done) =
        (s, if done then codes "OK" else codes "ERROR: Key not found or outdated timestamp")

    -- `KeyValueStore::process_command` after the words are read.
    unfoldable pub dispatch : Shared M → ℕ → Bytes → Bytes → Bytes → Shared M × Bytes
    dispatch s now action key value =
        if action == codes "GET"
        then (s, get s.kv key)
        else if action == codes "SET"
        then set_reply (set s key value now)
        else if action == codes "DEL"
        then del_reply (del s key now)
        else if action == codes "GET_ALL"
        then (s, list_data (get_all_key_value_data s.kv))
        else (s, codes "ERROR: Invalid command")

    -- `now` is what the system clock shows, in milliseconds.
    unfoldable pub process_command : Shared M → ℕ → Bytes → Shared M × Bytes
    unfolding dispatch
    process_command s now command =
        let (action, rest) = extract command in
        let (key, rest') = extract rest in
        let (value, _) = extract rest' in dispatch s now action key value
