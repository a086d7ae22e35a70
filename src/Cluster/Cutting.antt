-- ===== src/Cluster/Cutting.antt =====
-- A SET that a session's buffer holds, and whose message it does not.
use distributed_kvstore.Prelude.{◌+◌, ◌-◌, ◌≤◌, ◌<◌, Bytes, length, take}
use distributed_kvstore.Text.Words.{IsWord}
use distributed_kvstore.Dict.{HashOrder}
use distributed_kvstore.Merkle.{Merkle}
use distributed_kvstore.Node.{Node}

module _ (M : Merkle) (H : HashOrder) (key value : Bytes) (k : IsWord key) (v : IsWord value)
    (few : length key < 1009) (much : 1009 < length key + length value)
    (held : length key + length value ≤ 1019) where
  -- What the receiver's buffer holds of the value.
  abbrev kept : Bytes
  kept = take (1009 - length key) value
