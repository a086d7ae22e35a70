-- ===== src/Cluster/Crossing.antt =====
-- Writes of one key at both nodes, each on its way while the other comes.
use distributed_kvstore.Node.Fits.{Fits, take_set, take-propagated, take_command}
use distributed_kvstore.Prelude.{
  ℕ, ◌≤◌, ◌≡◌, ap, ◌∙◌, true, [], ◌∷◌, ◌++◌, Bytes, codes, arith, refl,
}
use distributed_kvstore.Text.Words.{IsWord}
use distributed_kvstore.Dict.{HashOrder}
use distributed_kvstore.Merkle.{Merkle}
use distributed_kvstore.Store.{get, set}
use distributed_kvstore.Node.{Node, Reply, has_peer, process_command, propagated}
use distributed_kvstore.Node.Propagation.{client_set, receive_set, propagate_reachable}
use distributed_kvstore.Node.Replies.{client_get, get-set}
use distributed_kvstore.Cluster.{End, Reach, handle_read}
use distributed_kvstore.Cluster.Clocks.{
  IsUpToDate, set-IsTimely, IsTimely-may_set, Reach-IsUpToDate, Before,
}
use distributed_kvstore.Cluster.Agreement.{later-IsTimely}

module _ (M : Merkle) (H : HashOrder) (limit : ℕ) (key : Bytes) (k : IsWord key) where
  abbrev set_words : Bytes → Bytes
  set_words value = codes "SET " ++ (key ++ 32 ∷ value)

  -- One end: its client's SET sends a message, and behind the message of the other end's SET it
  -- answers that end's value.
  replaced :
      (n : Node M) (mine other : Bytes) (now sent later at : ℕ)
      → IsWord mine
      → IsWord other
      → limit ≤ now
      → now ≤ later
      → IsUpToDate M H limit n
      → (process_command M H
          (process_command M H
            (process_command M H n now (set_words mine)).node
            later
            (propagated M (codes "SET") key other sent)).node
          at
          (codes "GET " ++ key)).response
        ≡ other
  replaced n mine other now sent later at v v' le le' h =
      let t = (set H M n.shared key mine now).0 in
      let n' : Node M = record n { shared = t } in
      let timely =
        set-IsTimely M H now n.shared key mine now (omega arith)
          (later-IsTimely M H limit now n.shared le h.timely) in
      client_get M H _ at key k
      ∙ ap
          (λ (r : Reply M).
            get
              (process_command M H r.node later
                (propagated M (codes "SET") key other sent)).node.shared.kv
              key)
          (client_set M H n now key mine k v)
      ∙ ap (λ (r : Reply M). get r.node.shared.kv key)
          (receive_set M H n' later key other sent k v')
      ∙ get-set M H t key other later timely.distinct
          (IsTimely-may_set M H now t key later le' timely)

  sends :
      (n : Node M) (value : Bytes) (now : ℕ)
      → IsWord value
      → has_peer n.peer_host n.peer_port ≡ true
      → (process_command M H n now (set_words value)).sent
        ≡ propagated M (codes "SET") key value now ∷ []
  sends n value now v reachable =
      ap (λ (r : Reply M). r.sent) (client_set M H n now key value k v)
      ∙ propagate_reachable M n _ reachable

  -- In a cluster that is reached while no clock showed more than a limit, clients SET one word to two
  -- values, one at each node, at times not before the limit, and each SET sends one message, which
  -- the 1024 bytes of a session's buffer hold. Where each message arrives behind the other node's
  -- own SET, with a clock that shows no earlier time than then, the nodes have swapped the values: a
  -- GET at either answers the other client's.
  pub Reach-crossed :
      (n : ℕ) (a b : End M) (r : Reach M H n (a, b))
      → Before M H limit r
      → (x y : Bytes) (s t at_a at_b get_a get_b : ℕ) → IsWord x
      → IsWord y
      → Fits M (codes "SET") key x s
      → Fits M (codes "SET") key y t
      → limit ≤ s
      → limit ≤ t
      → s ≤ at_a
      → t ≤ at_b
      → let at_first = handle_read M H a.node s (set_words x) in
        let at_second = handle_read M H b.node t (set_words y) in
        let message = propagated M (codes "SET") key x s in
        let message' = propagated M (codes "SET") key y t in
        (at_first.sent ≡ message ∷ [])
        × (at_second.sent ≡ message' ∷ [])
        × ((handle_read M H
              (handle_read M H at_first.node at_a message').node
              get_a
              (codes "GET " ++ key)).response
            ≡ y)
        × ((handle_read M H
              (handle_read M H at_second.node at_b message).node
              get_b
              (codes "GET " ++ key)).response
            ≡ x)
  Reach-crossed n a b r before x y s t at_a at_b get_a get_b v v' fits fits' ls lt la lb =
      let (p, q) = Reach-IsUpToDate M H limit n (a, b) r before in
      rw
        (
          take_set M key x s fits,
          take_set M key y t fits',
          take-propagated M (codes "SET") key x s fits,
          take-propagated M (codes "SET") key y t fits',
          take_command M (codes "SET") key x s refl fits (codes "GET ") refl,
        )
        (
          sends a.node x s v p.reachable,
          sends b.node y t v' q.reachable,
          replaced a.node x y s t at_a get_a v v' ls la p,
          replaced b.node y x t s at_b get_b v' v lt lb q,
        )
