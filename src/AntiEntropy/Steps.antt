-- ===== src/AntiEntropy/Steps.antt =====
-- `run_anti_entropy` step by step, as the manager's thread runs beside the sessions: between two steps
-- the store is anyone's.
pub mod Adequacy
pub mod Keeping
pub mod Ending
use distributed_kvstore.Prelude.{
  ℕ, zero, suc, none, some, List, [], ◌∷◌, ◌++◌, Bytes, codes, Result, ok, err, if◌then◌else◌,
}
use distributed_kvstore.Text.{◌==◌}
use distributed_kvstore.Dict.{HashOrder}
use distributed_kvstore.Merkle.{Merkle}
use distributed_kvstore.MerkleIndex.{get_root_hash}
use distributed_kvstore.Store.{Shared}
use distributed_kvstore.Node.{AntiEntropyManager, deref}
use distributed_kvstore.Io.{World, pure, state, ◌>>=◌, ◌>>◌}
use distributed_kvstore.AntiEntropy.{
  Run, connect, exchange, set_now, differing_keys, parse_peer_keys, join_keys,
}

-- Where the thread is in a run, and what its locals hold: the index at address `p`, the local root,
-- what the peer answered, the differing keys that are left, and the value that was read for one.
pub data Phase : Type 0 where
  beginning : Phase
  rooted : (p : ℕ) → (local_root : Bytes) → Phase
  connected : (p : ℕ) → (local_root : Bytes) → Phase
  unequal : (p : ℕ) → Phase
  listed : (p : ℕ) → (peer_keys_str : Bytes) → Phase
  answered : (p : ℕ) → (peer_paths_str : Bytes) → Phase
  updating : (differing_keys : List Bytes) → Phase
  taking : (key value : Bytes) → (differing_keys : List Bytes) → Phase
  -- The run has returned or thrown.
  finished : (result : Result (Unit {0})) → Phase

abbrev pub returned : Phase
returned = finished (ok tt)

module _ (M : Merkle) (H : HashOrder) (W : World) where
  -- From one use of the store, the network or the index to the next.
  unfoldable pub action : AntiEntropyManager → Phase → Run M H W Phase
  action manager beginning = elim manager.merkle_index [
    | none ↦ pure returned
    | some p ↦
        state >>= λ s. pure (rooted p (M.hash_string (get_root_hash M (deref M s.0.memory p))))
  ]
  action manager (rooted p local_root) = connect M H W >> pure (connected p local_root)
  action manager (connected p local_root) =
      exchange M H W 4096 (codes "GET_MERKLE_ROOT") >>= λ peer_root_str.
      pure (if peer_root_str == local_root then returned else unequal p)
  action manager (unequal p) =
      exchange M H W 4096 (codes "GET_ALL") >>= λ peer_keys_str. pure (listed p peer_keys_str)
  action manager (listed p peer_keys_str) =
      exchange M H W 4096 (codes "GET_PATHS " ++ join_keys (parse_peer_keys peer_keys_str))
      >>= λ peer_paths_str. pure (answered p peer_paths_str)
  action manager (answered p peer_paths_str) =
      differing_keys M H W p peer_paths_str >>= λ keys. pure (updating keys)
  action manager (updating []) = pure returned
  action manager (updating (key ∷ keys)) =
      exchange M H W 4096 (codes "GET " ++ key) >>= λ value. pure (taking key value keys)
  action manager (taking key value keys) = set_now M H W key value >> pure (updating keys)
  action manager (finished result) = pure (finished result)

  abbrev landed : Result Phase × (Shared M × W.State) → Phase × (Shared M × W.State)
  landed (ok phase, s) = (phase, s)
  landed (err e, s) = (finished (err e), s)

  -- An exception ends the run.
  unfoldable pub step :
      AntiEntropyManager → Phase × (Shared M × W.State) → Phase × (Shared M × W.State)
  unfolding action
  step manager (phase, s) = landed (action manager phase s)

  unfoldable pub steps :
      ℕ → AntiEntropyManager → Phase × (Shared M × W.State) → Phase × (Shared M × W.State)
  unfolding step
  steps zero manager c = c
  steps (suc n) manager c = steps n manager (step manager c)
