-- ===== src/Cluster.antt =====
-- The two nodes together: the commands that connections bring, the messages that the threads of
-- `propagate_update` carry, and the single steps of the runs of anti-entropy, in any order.
pub mod Invariants
pub mod Runs
pub mod Clocks
pub mod Agreement
pub mod Threads
pub mod History
pub mod Latest
pub mod Crossing
pub mod Messages
pub mod Settling
pub mod Sources
pub mod Origin
pub mod Cutting
use distributed_kvstore.Prelude.{
  ℕ, zero, suc, ◌≡◌, Option, some, List, [], ◌∷◌, ◌++◌, Bytes, Result, map, ◌+◌, ◌<◌, ◌≤◌, take,
}
use distributed_kvstore.Dict.{HashOrder}
use distributed_kvstore.Merkle.{Merkle}
use distributed_kvstore.Node.{Node, Reply, AntiEntropyManager, process_command}
use distributed_kvstore.Node.Main.{node1, node2}
use distributed_kvstore.Requests.{max_retries}
use distributed_kvstore.Io.{World}
use distributed_kvstore.AntiEntropy.Steps.{Phase, beginning, finished, step}
use distributed_kvstore.Store.{Shared}

-- A thread of `propagate_update` that has not written its message yet.
pub record Thread : Type 0 where
  pub message : Bytes
  pub retry_count : ℕ

abbrev pub start_thread : Bytes → Thread
start_thread message = record { message = message; retry_count = 0 }

-- A node, its threads to the peer, and where the thread of its manager is.
pub record End (M : Merkle) : Type 0 where
  pub node : Node M
  pub threads : List Thread
  pub phase : Phase

abbrev pub Cluster : Merkle → Type 0
Cluster M = End M × End M

module _ (M : Merkle) (H : HashOrder) where
  -- The handler of a session's read: its buffer has 1024 bytes, and there is no second read.
  abbrev pub handle_read : Node M → ℕ → Bytes → Reply M
  handle_read n now text = process_command M H n now (take 1024 text)

  -- A session of the first end reads a text; each message has a thread of its own.
  unfoldable pub handle : Cluster M → ℕ → Bytes → Cluster M
  handle (a, b) now command =
      let r = handle_read a.node now command in
      (record a { node = r.node; threads = a.threads ++ map start_thread r.sent }, b)

  abbrev fresh : Node M → End M
  fresh n = record { node = n; threads = []; phase = beginning }

  abbrev pub start : Cluster M
  start = (fresh (node1 M H), fresh (node2 M H))

  abbrev pub stepped : End M → Phase → Shared M → End M
  stepped a phase s = record a { node = record a.node { shared = s }; phase = phase }

  -- A step of the manager's thread.
  unfoldable pub advance : (W : World) → AntiEntropyManager → End M → W.State → End M × W.State
  advance W manager a w =
      let c = step M H W manager (a.phase, (a.node.shared, w)) in (stepped a c.0 c.1.0, c.1.1)

  -- The clusters that are reached, and the number of commands that connections have brought from
  -- outside: a client's, or a request of anti-entropy.
  pub data Reach : ℕ → Cluster M → Type 1 where
    started : Reach 0 start
    -- The two ends are looked at in the other order.
    swapped : {n : ℕ} (a b : End M) → Reach n (a, b) → Reach n (b, a)
    commanded :
        {n : ℕ} (c : Cluster M) (now : ℕ) (command : Bytes)
        → Reach n c
        → Reach (suc n) (handle c now command)
    -- An attempt of a thread of the second end, whichever it is, writes its message.
    delivered :
        {n : ℕ} (a b : End M) (now : ℕ) (before after : List Thread) (t : Thread)
        → b.threads ≡ before ++ t ∷ after
        → t.retry_count < max_retries
        → Reach n (a, b)
        → Reach n (handle (a, record b { threads = before ++ after }) now t.message)
    -- An attempt throws.
    failed :
        {n : ℕ} (a b : End M) (before after : List Thread) (t : Thread)
        → b.threads ≡ before ++ t ∷ after
        → t.retry_count < max_retries
        → Reach n (a, b)
        → Reach n (
          a,
          record b { threads = before ++ record t { retry_count = t.retry_count + 1 } ∷ after },
        )
    -- A thread leaves its loop.
    gave_up :
        {n : ℕ} (a b : End M) (before after : List Thread) (t : Thread)
        → b.threads ≡ before ++ t ∷ after
        → max_retries ≤ t.retry_count
        → Reach n (a, b)
        → Reach n (a, record b { threads = before ++ after })
    -- The thread of the first end's manager takes a step, whatever the network answers.
    synchronised :
        {n : ℕ} (a b : End M) (W : World) (w : W.State) (manager : AntiEntropyManager)
        → a.node.anti_entropy_manager ≡ some manager
        → Reach n (a, b)
        → Reach n ((advance W manager a w).0, b)
    -- It has slept behind a run, which may have thrown.
    slept :
        {n : ℕ} (a b : End M) (result : Result (Unit {0}))
        → a.phase ≡ finished result
        → Reach n (a, b)
        → Reach n (record a { phase = beginning }, b)
