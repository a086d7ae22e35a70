-- ===== src/Node/Running.antt =====
-- What stays true of a node from `start_anti_entropy` on, whatever commands it handles.
use distributed_kvstore.Prelude.{
  ℕ, ◌≡◌, refl, ap, ◌∙◌, Bool, true, false, Option, some, [], ◌∷◌, ◌++◌, Bytes, codes, arith,
  length, length-append, Bool-cases, inl, inr,
}
use distributed_kvstore.Text.{◌==◌, bytes_dec}
use distributed_kvstore.Text.Words.{extract}
use distributed_kvstore.Dict.{HashOrder, NodupKeys}
use distributed_kvstore.Merkle.{Merkle}
use distributed_kvstore.MerkleIndex.{MerkleTreeIndex, new_index, rebuild, get_root_hash}
use distributed_kvstore.Store.{set, del, set_merkle_index, get_all_key_value_data}
use distributed_kvstore.Store.Effects.{
  set-NodupKeys, del-NodupKeys, merkle_index-set, merkle_index-del,
}
use distributed_kvstore.Store.IndexSync.{
  IsSynced, set-IsSynced, del-IsSynced, set_merkle_index-IsSynced,
}
use distributed_kvstore.Node.Sent.{dispatch-cases}
use distributed_kvstore.Node.{
  Node, Reply, SyncMode, AntiEntropyManager, dispatch, read_operands, process_command,
  manager_index, merkle_root, start_anti_entropy,
}

module _ (M : Merkle) (H : HashOrder) where
  module _ (P : Node M → Type 0) (n : Node M) (now : ℕ) where
    abbrev KeepsSet : Type 0
    KeepsSet = (key value : Bytes) → P (record n { shared = (set H M n.shared key value now).0 })

    abbrev KeepsDel : Type 0
    KeepsDel = (key : Bytes) → P (record n { shared = (del H M n.shared key now).0 })

    dispatch-keeps :
        (is_propagated : Bool) (action key value rest : Bytes)
        → P n
        → KeepsSet
        → KeepsDel
        → P (dispatch M H n now is_propagated action key value rest).node
    dispatch-keeps is_propagated action key value rest h hs hd =
        dispatch-cases M H n now (λ r. P r.node) is_propagated action key value rest (λ s. h)
          (hs key value) (hd key)

    -- A property of the node holds after a command if `set` and `del` keep it.
    pub process_command-keeps :
        (command : Bytes) → P n → KeepsSet → KeepsDel → P (process_command M H n now command).node
    unfolding process_command read_operands
    process_command-keeps command h hs hd =
        elim (Bool-cases ((extract command).0 == codes "PROPAGATE")) [
          | inl e ↦ rw e (dispatch-keeps true _ _ _ _ h hs hd)
          | inr e ↦ rw e (dispatch-keeps false _ _ _ _ h hs hd)
        ]

  -- The manager and the store share one index, and it is the one that the entries build.
  pub record IsRunning (n : Node M) : Type 0 where
    pub distinct : NodupKeys n.shared.kv.store
    pub synced : IsSynced H M n.shared
    pub address : ℕ
    pub manager : AntiEntropyManager
    pub started : n.anti_entropy_manager ≡ some manager
    pub managed : manager.merkle_index ≡ some address
    pub shared_index : n.shared.kv.merkle_index ≡ some address

  -- A node whose table holds no key twice is running once its anti-entropy is started.
  pub start_anti_entropy-IsRunning :
      (n : Node M) → NodupKeys n.shared.kv.store → IsRunning (start_anti_entropy M H n)
  unfolding start_anti_entropy set_merkle_index
  start_anti_entropy-IsRunning n distinct = record {
    distinct = distinct;
    synced =
        set_merkle_index-IsSynced H M
          (record n.shared { memory = n.shared.memory ++ new_index M ∷ [] })
          (length n.shared.memory)
          (omega (arith, length-append n.shared.memory (new_index M ∷ [])));
    address = length n.shared.memory;
    manager = record {
      peer_host = n.peer_host;
      peer_port = n.peer_port;
      sync_mode = SyncMode.merkle_tree;
      merkle_index = some (length n.shared.memory);
    };
    started = refl;
    managed = refl;
    shared_index = refl;
  }

  set-kept :
      (n : Node M) (key value : Bytes) (now : ℕ)
      → IsRunning n
      → IsRunning (record n { shared = (set H M n.shared key value now).0 })
  set-kept n key value now r = record {
    distinct = set-NodupKeys H M n.shared key value now r.distinct;
    synced = set-IsSynced H M n.shared key value now r.synced;
    address = r.address;
    manager = r.manager;
    started = r.started;
    managed = r.managed;
    shared_index = merkle_index-set H M n.shared key value now ∙ r.shared_index;
  }

  del-kept :
      (n : Node M) (key : Bytes) (now : ℕ)
      → IsRunning n
      → IsRunning (record n { shared = (del H M n.shared key now).0 })
  del-kept n key now r = record {
    distinct = del-NodupKeys H M n.shared key now r.distinct;
    synced = del-IsSynced H M n.shared key now r.synced;
    address = r.address;
    manager = r.manager;
    started = r.started;
    managed = r.managed;
    shared_index = merkle_index-del H M n.shared key now ∙ r.shared_index;
  }

  -- Whatever command a running node handles, valid or not, it goes on running: its table holds no key
  -- twice, and the index that the manager and the store share is the one that the entries build.
  pub process_command-IsRunning :
      (n : Node M) (now : ℕ) (command : Bytes)
      → IsRunning n
      → IsRunning (process_command M H n now command).node
  process_command-IsRunning n now command r =
      process_command-keeps IsRunning n now command r (λ key value. set-kept n key value now r)
        (λ key. del-kept n key now r)

  pub manager_index-rebuild :
      (n : Node M)
      → IsRunning n
      → manager_index M n ≡ some (rebuild M H (get_all_key_value_data H n.shared.kv))
  manager_index-rebuild n r = ground (arith, r.synced.at_address r.address r.shared_index)

  -- The response of a running node to GET_MERKLE_ROOT is the root over its present entries.
  root_response :
      (n : Node M) (now : ℕ)
      → IsRunning n
      → process_command M H n now (codes "GET_MERKLE_ROOT") ≡ record {
        node = n;
        response =
            M.hash_string (get_root_hash M (rebuild M H (get_all_key_value_data H n.shared.kv)));
        sent = [];
      }
  unfolding process_command read_operands dispatch extract bytes_dec
  root_response n now r =
      ap
        (λ (x : Option (MerkleTreeIndex M)).
          let reply : Reply M = record { node = n; response = merkle_root M x; sent = [] } in reply)
        (manager_index-rebuild n r)
