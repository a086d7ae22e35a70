-- ===== src/Cluster/Clocks.antt =====
-- Clocks that do not go back: no entry is ahead of them, so every write is accepted.
use distributed_kvstore.Node.Fits.{Fits, take_set, take-propagated, take_command}
use distributed_kvstore.Prelude.{
  ℕ, ◌≤◌, ◌≡◌, ◌⊎◌, sym, refl, true, some, [], ◌∷◌, ◌++◌, Bytes, codes, arith, inl, inr,
  Option-cases, take,
}
use mathlib.Core.Path.{subst}
use distributed_kvstore.Text.Words.{IsWord}
use distributed_kvstore.Dict.{HashOrder, NodupKeys, find}
use distributed_kvstore.Merkle.{Merkle}
use distributed_kvstore.Store.{set_merkle_index, Shared, ValueWithTimestamp, set, del, may_set}
use distributed_kvstore.Store.Effects.{set-NodupKeys, del-NodupKeys, find-set, find-del}
use distributed_kvstore.Node.{
  Node, AntiEntropyManager, has_peer, process_command, new_node, start_anti_entropy, propagated,
}
use distributed_kvstore.Node.Main.{node1, node2}
use distributed_kvstore.Node.Replies.{get_after_set}
use distributed_kvstore.Node.Running.{process_command-keeps}
use distributed_kvstore.Io.{World}
use distributed_kvstore.AntiEntropy.Steps.Keeping.{step-shared}
use distributed_kvstore.Cluster.{
  End, Cluster, handle, advance, Reach, started, swapped, commanded, delivered, failed, gave_up,
  synchronised, slept, handle_read,
}

module _ (M : Merkle) (H : HashOrder) (limit : ℕ) where
  -- Every clock that was read on the way showed at most `limit`.
  abbrev pub Before : {n : ℕ} {c : Cluster M} → Reach M H n c → Type 0
  Before started = Unit
  Before (swapped a b r) = Before r
  Before (commanded c now command r) = (now ≤ limit) × Before r
  Before (delivered a b now before after t e left r) = (now ≤ limit) × Before r
  Before (failed a b before after t e left r) = Before r
  Before (gave_up a b before after t e spent r) = Before r
  Before (synchronised a b W w manager e r) = (W.clock w ≤ limit) × Before r
  Before (slept a b result e r) = Before r

  pub record IsTimely (s : Shared M) : Type 0 where
    pub distinct : NodupKeys s.kv.store
    pub early :
        (j : Bytes) (v : ValueWithTimestamp) → find j s.kv.store ≡ some v → v.timestamp ≤ limit

  pub set-IsTimely :
      (s : Shared M) (key value : Bytes) (now : ℕ)
      → now ≤ limit
      → IsTimely s
      → IsTimely (set H M s key value now).0
  set-IsTimely s key value now le h = record {
    distinct = set-NodupKeys H M s key value now h.distinct;
    early = λ j v e. ground (arith, find-set H M s key value now j h.distinct, h.early j v, e, le);
  }

  pub del-IsTimely :
      (s : Shared M) (key : Bytes) (now : ℕ) → IsTimely s → IsTimely (del H M s key now).0
  del-IsTimely s key now h = record {
    distinct = del-NodupKeys H M s key now h.distinct;
    early = λ j v e. ground (arith, find-del H M s key now j h.distinct, h.early j v, e);
  }

  pub record IsUpToDate (n : Node M) : Type 0 where
    pub timely : IsTimely n.shared
    pub reachable : has_peer n.peer_host n.peer_port ≡ true

  process_command-IsUpToDate :
      (n : Node M) (now : ℕ) (command : Bytes)
      → now ≤ limit
      → IsUpToDate n
      → IsUpToDate (process_command M H n now command).node
  process_command-IsUpToDate n now command le h =
      process_command-keeps M H IsUpToDate n now command h
        (λ key value. record {
          timely = set-IsTimely n.shared key value now le h.timely;
          reachable = h.reachable;
        })
        (λ key. record { timely = del-IsTimely n.shared key now h.timely; reachable = h.reachable })

  advance-IsUpToDate :
      (W : World) (manager : AntiEntropyManager) (a : End M) (w : W.State)
      → W.clock w ≤ limit
      → IsUpToDate a.node
      → IsUpToDate (advance M H W manager a w).0.node
  unfolding advance
  advance-IsUpToDate W manager a w le h = record {
    timely = elim (step-shared M H W manager a.phase (a.node.shared, w)) [
      | inl e ↦ subst IsTimely (sym e) h.timely
      | inr (key, value, e) ↦
          subst IsTimely (sym e) (set-IsTimely a.node.shared key value (W.clock w) le h.timely)
    ];
    reachable = h.reachable;
  }

  pub Reach-IsUpToDate :
      (n : ℕ) (c : Cluster M) (r : Reach M H n c)
      → Before r
      → IsUpToDate c.0.node × IsUpToDate c.1.node
  unfolding handle node1 node2 new_node start_anti_entropy set_merkle_index has_peer find
  Reach-IsUpToDate n c started b =
      let first : IsUpToDate (node1 M H) = record {
        timely = record { distinct = tt; early = λ j v e. cc };
        reachable = refl;
      } in
      let second : IsUpToDate (node2 M H) = record {
        timely = record { distinct = tt; early = λ j v e. cc };
        reachable = refl;
      } in
      (first, second)
  Reach-IsUpToDate n c (swapped x y r) b = let (p, q) = Reach-IsUpToDate n (x, y) r b in (q, p)
  Reach-IsUpToDate n c (commanded {n = m} (x, y) now command r) (le, b) =
      let (p, q) = Reach-IsUpToDate m (x, y) r b in
      (process_command-IsUpToDate x.node now (take 1024 command) le p, q)
  Reach-IsUpToDate n c (delivered x y now before after t e left r) (le, b) =
      let (p, q) = Reach-IsUpToDate n (x, y) r b in
      (process_command-IsUpToDate x.node now (take 1024 t.message) le p, q)
  Reach-IsUpToDate n c (failed x y before after t e left r) b = Reach-IsUpToDate n (x, y) r b
  Reach-IsUpToDate n c (gave_up x y before after t e spent r) b = Reach-IsUpToDate n (x, y) r b
  Reach-IsUpToDate n c (synchronised x y W w manager e r) (le, b) =
      let (p, q) = Reach-IsUpToDate n (x, y) r b in (advance-IsUpToDate W manager x w le p, q)
  Reach-IsUpToDate n c (slept x y result e r) b = Reach-IsUpToDate n (x, y) r b

  pub IsTimely-may_set :
      (s : Shared M) (key : Bytes) (now : ℕ)
      → limit ≤ now
      → IsTimely s
      → may_set (find key s.kv.store) now ≡ true
  IsTimely-may_set s key now le h = elim (Option-cases (find key s.kv.store)) [
    | inl e ↦ rw e refl
    | inr (v, e) ↦ rw e (ground (arith, h.early key v e, le))
  ]

  -- In a cluster that is reached while no clock showed more than a limit, no entry of either node has
  -- a timestamp beyond it.
  Reach-early :
      (n : ℕ) (c : Cluster M) (r : Reach M H n c)
      → Before r
      → (j : Bytes) (v : ValueWithTimestamp)
      → (find j c.0.node.shared.kv.store ≡ some v) ⊎ (find j c.1.node.shared.kv.store ≡ some v)
      → v.timestamp ≤ limit
  Reach-early n c r before j v (inl e) = (Reach-IsUpToDate n c r before).0.timely.early j v e
  Reach-early n c r before j v (inr e) = (Reach-IsUpToDate n c r before).1.timely.early j v e

  -- In a cluster that is reached while no clock showed more than a limit, a client's SET of two words
  -- at a time not before the limit sends one message. If the 1024 bytes of a session's buffer hold
  -- that message, then once it is delivered at such a time, a GET of the key on either node answers
  -- the value.
  pub Reach-get_after_set :
      (n : ℕ) (a b : End M) (r : Reach M H n (a, b))
      → Before r
      → (key value : Bytes) (now later at_node at_peer : ℕ) → IsWord key
      → IsWord value
      → Fits M (codes "SET") key value now
      → limit ≤ now
      → limit ≤ later
      → let reply = handle_read M H a.node now (codes "SET " ++ (key ++ 32 ∷ value)) in
        let message = propagated M (codes "SET") key value now in
        (reply.sent ≡ message ∷ [])
        × ((handle_read M H reply.node at_node (codes "GET " ++ key)).response ≡ value)
        × ((handle_read M H
              (handle_read M H b.node later message).node
              at_peer
              (codes "GET " ++ key)).response
            ≡ value)
  Reach-get_after_set n a b r before key value now later at_node at_peer k v fits le le' =
      let (p, q) = Reach-IsUpToDate n (a, b) r before in
      rw
        (
          take_set M key value now fits,
          take-propagated M (codes "SET") key value now fits,
          take_command M (codes "SET") key value now refl fits (codes "GET ") refl,
        )
        (get_after_set M H a.node b.node now later at_node at_peer key value k v p.reachable
          p.timely.distinct q.timely.distinct (IsTimely-may_set a.node.shared key now le p.timely)
          (IsTimely-may_set b.node.shared key later le' q.timely))
