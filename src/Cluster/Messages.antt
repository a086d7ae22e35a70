-- ===== src/Cluster/Messages.antt =====
-- What the messages on the way say.
use mathlib.Core.List.{Memᴰ}
use distributed_kvstore.Prelude.{List, All}
use distributed_kvstore.Dict.{HashOrder}
use distributed_kvstore.Merkle.{Merkle}
use distributed_kvstore.Store.Updates.{Update}
use distributed_kvstore.Node.Messages.{Tells}
use distributed_kvstore.Cluster.{Thread, Cluster}

module _ (M : Merkle) (H : HashOrder) where
  -- The thread has the message of an update of these.
  abbrev IsTold : List Update → Thread → Type 0
  IsTold us t = (u : Update) × Memᴰ u us × Tells M u t.message

  record AreTold (c : Cluster M) (us : List Update × List Update) : Type 0 where
    first : All (IsTold us.0) c.0.threads
    second : All (IsTold us.1) c.1.threads
