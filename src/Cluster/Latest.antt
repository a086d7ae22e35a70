-- ===== src/Cluster/Latest.antt =====
-- What becomes of a write in the two nodes together.
use mathlib.Core.List.{Memᴰ}
use distributed_kvstore.Prelude.{ℕ, ◌≡◌, ap, some, ◌∙◌, ◌≤◌, All, Bytes, inl, inr}
use distributed_kvstore.Dict.{HashOrder, find}
use distributed_kvstore.Merkle.{Merkle}
use distributed_kvstore.Store.{ValueWithTimestamp}
use distributed_kvstore.Store.Updates.{puts}
use distributed_kvstore.Store.Updates.Latest.{Spares, written-HasSince, run_written}
use distributed_kvstore.Cluster.{End, Reach}
use distributed_kvstore.Cluster.History.{history, no_registers, Reach-Holds}

module _ (M : Merkle) (H : HashOrder) where
  -- In every cluster that is reached: if a write of a key is among what a node has handled, or what
  -- its manager has stored, and no removal of the key at the write's time or later is, then the node
  -- has an entry of the key. It is one of these writes, and its time is not before that of the one named.
  pub Reach-latest :
      (n : ℕ) (a b : End M) (r : Reach M H n (a, b)) (key : Bytes) (v : ValueWithTimestamp)
      → All (Spares key v.timestamp) (history M H r).0
      → Memᴰ (puts key v) (history M H r).0
      → (w : ValueWithTimestamp) × (find key a.node.shared.kv.store ≡ some w)
        × (v.timestamp ≤ w.timestamp)
        × Memᴰ (puts key w) (history M H r).0
  Reach-latest n a b r key v spared written =
      let us = (history M H r).0 in
      let held = ap (λ (f : Bytes → _). f key) (Reach-Holds M H n (a, b) r).0 in
      let (w, e, later) = written-HasSince key us no_registers v spared written in
      (w, held ∙ e, later, elim (run_written key us no_registers w e) [ inl h ↦ cc | inr m ↦ m ])
