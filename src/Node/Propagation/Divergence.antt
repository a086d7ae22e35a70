-- ===== src/Node/Propagation/Divergence.antt =====
-- Where the propagated message and its reader disagree.
use distributed_kvstore.Prelude.{
  ℕ, ◌≡◌, ap, ◌∙◌, ◌<◌, ◌≤◌, true, some, [], ◌∷◌, ◌++◌, Bytes, codes, arith,
}
use distributed_kvstore.Text.Words.{IsWord}
use distributed_kvstore.Text.Decimal.{to_string}
use distributed_kvstore.Dict.{HashOrder, NodupKeys, find}
use distributed_kvstore.Merkle.{Merkle}
use distributed_kvstore.Store.{ValueWithTimestamp, may_set}
use distributed_kvstore.Store.Effects.{find-set}
use distributed_kvstore.Store.Updates.{view}
use distributed_kvstore.Node.{Node, Reply, has_peer, process_command, propagated}
use distributed_kvstore.Node.Propagation.{
  client_set_empty, receive_set, receive_shifted, propagate_reachable,
}

module _ (M : Merkle) (H : HashOrder) (n peer : Node M) (now later : ℕ) where
  -- A SET of one word, whose value is missing, makes the two nodes differ: a node with a peer stores
  -- the empty value and sends one message, with which the peer stores the digits of the sender's time.
  -- Both tables hold no key twice, and neither entry of the key is later than its node's clock.
  pub empty_value_diverges :
      (key : Bytes)
      → IsWord key
      → has_peer n.peer_host n.peer_port ≡ true
      → NodupKeys n.shared.kv.store
      → NodupKeys peer.shared.kv.store
      → may_set (find key n.shared.kv.store) now ≡ true
      → may_set (find key peer.shared.kv.store) later ≡ true
      → let r = process_command M H n now (codes "SET " ++ key) in
        (message : Bytes) × (r.sent ≡ message ∷ [])
        × (view r.node.shared key ≡ some (record { value = []; timestamp = now }))
        × (view (process_command M H peer later message).node.shared key
            ≡ some (record { value = to_string now; timestamp = later }))
  empty_value_diverges key k reachable nd nd' fresh fresh' = (
    propagated M (codes "SET") key [] now,
    ap (λ (r : Reply M). r.sent) (client_set_empty M H n now key k)
        ∙ propagate_reachable M n _ reachable,
    ap (λ (r : Reply M). view r.node.shared key) (client_set_empty M H n now key k)
        ∙ ground (arith, find-set H M n.shared key [] now key nd),
    ap (λ (r : Reply M). view r.node.shared key) (receive_shifted M H peer later key now k)
        ∙ ground (arith, find-set H M peer.shared key (to_string now) later key nd'),
  )

  -- A propagated SET of two words wins over a newer entry of a table that holds no key twice: the
  -- peer's entry of the key has a timestamp after that of the message and not after the peer's clock,
  -- and the message replaces it, under the peer's time.
  stale_propagation_wins :
      (key value : Bytes) (timestamp : ℕ) (entry : ValueWithTimestamp)
      → IsWord key
      → IsWord value
      → NodupKeys peer.shared.kv.store
      → view peer.shared key ≡ some entry
      → timestamp < entry.timestamp
      → entry.timestamp ≤ later
      → view
          (process_command M H peer later
            (propagated M (codes "SET") key value timestamp)).node.shared
          key
        ≡ some (record { value = value; timestamp = later })
  stale_propagation_wins key value timestamp entry k v nd held newer past =
      ap (λ (r : Reply M). view r.node.shared key)
        (receive_set M H peer later key value timestamp k v)
      ∙ ground (arith, find-set H M peer.shared key value later key nd)
