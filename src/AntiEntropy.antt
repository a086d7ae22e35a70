-- ===== src/AntiEntropy.antt =====
-- anti_entropy/anti_entropy_manager.hpp and .cpp: the manager's run against a peer, as one action on the
-- store and the world. Steps takes it apart.
pub mod Safety
pub mod Outcomes
pub mod RoundTrip
pub mod Counting
pub mod Listing
pub mod Steps
use distributed_kvstore.Prelude.{
  ℕ, zero, suc, Bool, true, false, Option, none, some, List, [], ◌∷◌, ◌++◌, Bytes, codes, Result,
  ok, err, if◌then◌else◌, ◌>>=◌ as then_result,
}
use distributed_kvstore.Text.{◌==◌}
use distributed_kvstore.Text.Fields.{break_at, fields}
use distributed_kvstore.Text.Hex.{from_hex}
use distributed_kvstore.Dict.{HashOrder}
use distributed_kvstore.Merkle.{Merkle}
use distributed_kvstore.MerkleIndex.{get_root_hash, find_differences}
use distributed_kvstore.Store.{Shared, set}
use distributed_kvstore.Node.{AntiEntropyManager, deref}
use distributed_kvstore.Io.{World, Io, pure, lift, state, ◌>>=◌, ◌>>◌, catch_all, for_each, after}

-- `get_merkle_index` and `set_merkle_index` of the manager.
abbrev get_merkle_index : AntiEntropyManager → Option ℕ
get_merkle_index manager = manager.merkle_index

abbrev set_merkle_index : AntiEntropyManager → Option ℕ → AntiEntropyManager
set_merkle_index manager index = record manager { merkle_index = index }

abbrev key_before : Bytes × Option Bytes → List Bytes → List Bytes
key_before (key, none) keys = keys
key_before (key, some rest) keys = key ∷ keys

-- The key in front of the `:` of each entry that has one.
unfoldable pub keys_of_entries : List Bytes → List Bytes
keys_of_entries [] = []
keys_of_entries (e ∷ entries) = key_before (break_at b':' e) (keys_of_entries entries)

-- "Parse peer keys"
unfoldable pub parse_peer_keys : Bytes → List Bytes
unfolding keys_of_entries
parse_peer_keys s = keys_of_entries (fields b';' s)

abbrev path_of_entry : Bytes × Option Bytes → List (Bytes × Bytes) → Result (List (Bytes × Bytes))
path_of_entry (key, none) rest = ok rest
path_of_entry (key, some hexpath) rest =
    then_result (from_hex hexpath) (λ path_bytes. ok ((key, path_bytes) ∷ rest))

-- The key and the path bytes of each entry that has a `,`. The first hexadecimal form that `stoi`
-- refuses ends the run.
unfoldable pub paths_of_entries : List Bytes → Result (List (Bytes × Bytes))
paths_of_entries [] = ok []
paths_of_entries (e ∷ entries) =
    then_result (path_of_entry (break_at b',' e) [])
      (λ here. then_result (paths_of_entries entries) (λ rest. ok (here ++ rest)))

-- "Parse peer paths"
unfoldable pub parse_peer_paths : Bytes → Result (List (Bytes × Bytes))
unfolding paths_of_entries
parse_peer_paths s = paths_of_entries (fields b';' s)

-- `get_paths_cmd += k + ";"`
unfoldable pub join_keys : List Bytes → Bytes
join_keys [] = []
join_keys (k ∷ keys) = k ++ b';' ∷ join_keys keys

unfoldable pub firsts {ℓ} : {A : Type ℓ} → List (Bytes × A) → List Bytes
firsts [] = []
firsts ((k, a) ∷ l) = k ∷ firsts l

module _ (M : Merkle) where
  -- `remote_merkle_paths.emplace_back(bytes)`
  unfoldable pub remote_paths : List (Bytes × Bytes) → Result (List M.MerklePath)
  remote_paths [] = ok []
  remote_paths ((k, path_bytes) ∷ l) =
      then_result (M.deserialise path_bytes)
        (λ p. then_result (remote_paths l) (λ rest. ok (p ∷ rest)))

  module _ (H : HashOrder) (W : World) where
    abbrev pub Run : Type 0 → Type 0
    Run = Io (Shared M × W.State)

    abbrev pub connect : Run (Unit {0})
    connect (s, w) = let (r, w') = W.connect w in (r, (s, w'))

    abbrev pub exchange : ℕ → Bytes → Run Bytes
    exchange n request (s, w) = let (r, w') = W.exchange n w request in (r, (s, w'))

    -- `kv_store_.set(key, value, …now…)`
    abbrev pub set_now : Bytes → Bytes → Run (Unit {0})
    set_now key value (s, w) = (ok tt, ((set H M s key value (W.clock w)).0, w))

    -- Step 6, for one differing key.
    unfoldable pub update_key : Bytes → Run (Unit {0})
    update_key key = do value ← exchange 4096 (codes "GET " ++ key); set_now key value

    -- The keys that `find_differences` gives for what the peer answered.
    unfoldable pub differing_keys : ℕ → Bytes → Run (List Bytes)
    differing_keys p peer_paths_str = do
      peer_paths ← lift (parse_peer_paths peer_paths_str)
      remote ← lift (remote_paths peer_paths)
      s ← state
      pure (find_differences M (deref M s.0.memory p) remote (firsts peer_paths))

    -- Steps 4 to 6.
    unfoldable pub synchronise : ℕ → Run (Unit {0})
    synchronise p = do
      peer_keys_str ← exchange 4096 (codes "GET_ALL")
      peer_paths_str ←
          exchange 4096 (codes "GET_PATHS " ++ join_keys (parse_peer_keys peer_keys_str))
      differing ← differing_keys p peer_paths_str
      for_each update_key differing

    -- Steps 1 to 3, with the index at address `p`.
    unfoldable pub run_with_index : ℕ → Run (Unit {0})
    run_with_index p = do
      before ← state
      connect
      peer_root_str ← exchange 4096 (codes "GET_MERKLE_ROOT")
      if peer_root_str == M.hash_string (get_root_hash M (deref M before.0.memory p))
          then pure tt
          else synchronise p

    unfoldable pub run_anti_entropy : AntiEntropyManager → Run (Unit {0})
    run_anti_entropy manager = elim manager.merkle_index [
      | none ↦ pure tt
      | some p ↦ run_with_index p
    ]

    -- The first `rounds` rounds of the thread that `start` makes, which sleeps between them.
    unfoldable pub start_rounds : ℕ → AntiEntropyManager → Run (Unit {0})
    start_rounds zero manager s = (ok tt, s)
    start_rounds (suc rounds) manager s =
        after (catch_all (run_anti_entropy manager) s) (λ _. start_rounds rounds manager)
