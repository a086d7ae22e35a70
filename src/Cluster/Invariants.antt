-- ===== src/Cluster/Invariants.antt =====
-- What holds of the two nodes however commands, messages and steps of anti-entropy interleave.
use distributed_kvstore.Prelude.{ℕ, ◌≡◌, ◌∙◌, Option, some, Bytes, take}
use distributed_kvstore.Dict.{HashOrder, NodupKeys}
use distributed_kvstore.Merkle.{Merkle}
use distributed_kvstore.Store.{Shared, set}
use distributed_kvstore.Store.Effects.{set-NodupKeys, merkle_index-set}
use distributed_kvstore.Store.IndexSync.{IsSynced, set-IsSynced}
use distributed_kvstore.Node.{AntiEntropyManager, new_node}
use distributed_kvstore.Node.Main.{node1, node2}
use distributed_kvstore.Node.Running.{
  IsRunning, start_anti_entropy-IsRunning, process_command-IsRunning,
}
use distributed_kvstore.Io.{World}
use distributed_kvstore.AntiEntropy.Steps.Keeping.{Keeps-step}
use distributed_kvstore.Cluster.{
  End, Cluster, handle, Reach, started, swapped, commanded, delivered, failed, gave_up,
  synchronised, slept, advance,
}

module _ (M : Merkle) (H : HashOrder) where
  -- What a run of anti-entropy keeps of a store with its index at `index`.
  record IsSharing (index : Option ℕ) (s : Shared M) : Type 0 where
    distinct : NodupKeys s.kv.store
    synced : IsSynced H M s
    shared_index : s.kv.merkle_index ≡ index

  set-IsSharing :
      (index : Option ℕ) (s : Shared M) (key value : Bytes) (now : ℕ)
      → IsSharing index s
      → IsSharing index (set H M s key value now).0
  set-IsSharing index s key value now h = record {
    distinct = set-NodupKeys H M s key value now h.distinct;
    synced = set-IsSynced H M s key value now h.synced;
    shared_index = merkle_index-set H M s key value now ∙ h.shared_index;
  }

  advance-IsRunning :
      (W : World) (a : End M) (w : W.State) (manager : AntiEntropyManager)
      → IsRunning M H a.node
      → IsRunning M H (advance M H W manager a w).0.node
  unfolding advance
  advance-IsRunning W a w manager r =
      let kept =
        Keeps-step M H W manager (IsSharing (some r.address)) (set-IsSharing (some r.address))
          a.phase (a.node.shared, w)
          (record { distinct = r.distinct; synced = r.synced; shared_index = r.shared_index }) in
      record {
        distinct = kept.distinct;
        synced = kept.synced;
        address = r.address;
        manager = r.manager;
        started = r.started;
        managed = r.managed;
        shared_index = kept.shared_index;
      }

  -- However commands, messages and steps of anti-entropy interleave, whatever the commands are and
  -- whatever the network answers, both nodes go on running.
  pub Reach-IsRunning :
      (n : ℕ) (c : Cluster M) → Reach M H n c → IsRunning M H c.0.node × IsRunning M H c.1.node
  unfolding handle node1 node2 new_node
  Reach-IsRunning n c started =
      (start_anti_entropy-IsRunning M H _ tt, start_anti_entropy-IsRunning M H _ tt)
  Reach-IsRunning n c (swapped a b h) = let (r, q) = Reach-IsRunning n (a, b) h in (q, r)
  Reach-IsRunning n c (commanded (a, b) now command h) =
      let (r, q) = Reach-IsRunning _ (a, b) h in
      (process_command-IsRunning M H a.node now (take 1024 command) r, q)
  Reach-IsRunning n c (delivered a b now before after t e left h) =
      let (r, q) = Reach-IsRunning n (a, b) h in
      (process_command-IsRunning M H a.node now (take 1024 t.message) r, q)
  Reach-IsRunning n c (failed a b before after t e left h) = Reach-IsRunning n (a, b) h
  Reach-IsRunning n c (gave_up a b before after t e spent h) = Reach-IsRunning n (a, b) h
  Reach-IsRunning n c (synchronised a b W w manager e h) =
      let (r, q) = Reach-IsRunning n (a, b) h in (advance-IsRunning W a w manager r, q)
  Reach-IsRunning n c (slept a b result e h) = Reach-IsRunning n (a, b) h
