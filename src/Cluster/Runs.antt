-- ===== src/Cluster/Runs.antt =====
-- A run of anti-entropy that nothing interrupts.
use distributed_kvstore.Prelude.{ℕ, zero, suc, ◌≡◌, some}
use mathlib.Core.Path.{subst}
use distributed_kvstore.Dict.{HashOrder}
use distributed_kvstore.Merkle.{Merkle}
use distributed_kvstore.Node.{AntiEntropyManager}
use distributed_kvstore.Io.{World}
use distributed_kvstore.Store.{Shared}
use distributed_kvstore.AntiEntropy.{run_anti_entropy}
use distributed_kvstore.AntiEntropy.Steps.{Phase, beginning, finished, steps}
use distributed_kvstore.AntiEntropy.Steps.Adequacy.{steps-run}
use distributed_kvstore.Cluster.{End, Reach, synchronised, stepped, advance}

module _ (M : Merkle) (H : HashOrder) (W : World) (manager : AntiEntropyManager) where
  Reach-steps :
      {n : ℕ} (k : ℕ) (a b : End M) (w : W.State)
      → a.node.anti_entropy_manager ≡ some manager
      → Reach M H n (a, b)
      → let c = steps M H W k manager (a.phase, (a.node.shared, w)) in
        Reach M H n (stepped M H a c.0 c.1.0, b)
  unfolding steps advance
  Reach-steps zero a b w e h = h
  Reach-steps (suc k) a b w e h =
      let next = advance M H W manager a w in
      Reach-steps k next.0 b next.1 e (synchronised a b W w manager e h)

  -- Where an end's thread is at its beginning, what a whole run leaves of the end is reached.
  pub Reach-run :
      {n : ℕ} (a b : End M) (w : W.State)
      → a.node.anti_entropy_manager ≡ some manager
      → a.phase ≡ beginning
      → Reach M H n (a, b)
      → let r = run_anti_entropy M H W manager (a.node.shared, w) in
        Reach M H n (stepped M H a (finished r.0) r.1.0, b)
  Reach-run {n} a b w e begins h =
      let (k, done) = steps-run M H W manager (a.node.shared, w) in
      let start : Phase × (Shared M × W.State) → Type 1 =
        λ c. Reach M H n (stepped M H a c.0 c.1.0, b) in
      subst start (rw (← begins) at done) (Reach-steps k a b w e h)
