-- ===== src/Node/Replies.antt =====
-- What clients of both nodes read after a write.
use distributed_kvstore.Prelude.{
  ℕ, ◌≡◌, ◌≢◌, refl, ap, ◌∙◌, Bool, true, false, [], ◌∷◌, ◌++◌, Bytes, codes, arith,
}
use distributed_kvstore.Text.{bytes_dec}
use distributed_kvstore.Text.Words.{IsWord}
use distributed_kvstore.Dict.{HashOrder, NodupKeys, find}
use distributed_kvstore.Merkle.{Merkle}
use distributed_kvstore.Store.{Shared, get, set, del, may_set, may_del}
use distributed_kvstore.Store.Effects.{find-set, find-del}
use distributed_kvstore.Node.{
  Node, Reply, dispatch, has_peer, process_command, propagate_update, propagated,
}
use distributed_kvstore.Node.Reading.{process_command-two}
use distributed_kvstore.Text.Words.Reading.{get-IsWord}
use distributed_kvstore.Node.Propagation.{client_set, client_del, receive_set, receive_del}

get_is_no_prefix : codes "GET" ≢ codes "PROPAGATE"
get_is_no_prefix = λ e. cc

module _ (M : Merkle) (H : HashOrder) where
  dispatch-get :
      (n : Node M) (now : ℕ) (is_propagated : Bool) (key value rest : Bytes)
      → dispatch M H n now is_propagated (codes "GET") key value rest
        ≡ record { node = n; response = get n.shared.kv key; sent = [] }
  unfolding dispatch bytes_dec
  dispatch-get n now is_propagated key value rest = refl

  pub client_get :
      (n : Node M) (now : ℕ) (key : Bytes)
      → IsWord key
      → (process_command M H n now (codes "GET " ++ key)).response ≡ get n.shared.kv key
  client_get n now key k =
      ap (λ (r : Reply M). r.response)
        (process_command-two M H n now (codes "GET") key get-IsWord get_is_no_prefix k
          ∙ dispatch-get n now false key [] [])

  pub get-set :
      (s : Shared M) (key value : Bytes) (now : ℕ)
      → NodupKeys s.kv.store
      → may_set (find key s.kv.store) now ≡ true
      → get (set H M s key value now).0.kv key ≡ value
  unfolding get
  get-set s key value now n h = ground (arith, find-set H M s key value now key n)

  pub get-del :
      (s : Shared M) (key : Bytes) (now : ℕ)
      → NodupKeys s.kv.store
      → may_del (find key s.kv.store) now ≡ true
      → get (del H M s key now).0.kv key ≡ []
  unfolding get
  get-del s key now n h = ground (arith, find-del H M s key now key n)

  module _ (n peer : Node M) (now later : ℕ) (at_node at_peer : ℕ) where
    -- Behind a SET of two words on a node which has a peer, and the delivery of its one message, a GET
    -- of the key on either node answers the value. Both tables hold no key twice, and neither entry
    -- of the key is later than its node's clock.
    pub get_after_set :
        (key value : Bytes)
        → IsWord key
        → IsWord value
        → has_peer n.peer_host n.peer_port ≡ true
        → NodupKeys n.shared.kv.store
        → NodupKeys peer.shared.kv.store
        → may_set (find key n.shared.kv.store) now ≡ true
        → may_set (find key peer.shared.kv.store) later ≡ true
        → let r = process_command M H n now (codes "SET " ++ (key ++ 32 ∷ value)) in
          let message = propagated M (codes "SET") key value now in
          (r.sent ≡ message ∷ [])
          × ((process_command M H r.node at_node (codes "GET " ++ key)).response ≡ value)
          × ((process_command M H
                (process_command M H peer later message).node
                at_peer
                (codes "GET " ++ key)).response
              ≡ value)
    get_after_set key value k v reachable d d' fresh fresh' =
        let r = client_set M H n now key value k v in
        let q = receive_set M H peer later key value now k v in
        (
          ap (λ (x : Reply M). x.sent) r ∙ (unfold propagate_update in rw reachable refl),
          client_get _ at_node key k
              ∙ ap (λ (x : Reply M). get x.node.shared.kv key) r
              ∙ get-set n.shared key value now d fresh,
          client_get _ at_peer key k
              ∙ ap (λ (x : Reply M). get x.node.shared.kv key) q
              ∙ get-set peer.shared key value later d' fresh',
        )

    -- Behind a DEL of one word on a node which has a peer, and the delivery of its one message, a GET
    -- of the key on either node answers the empty text. Neither store has a value for the key once
    -- its `del` is called.
    pub read_after_del :
        (key : Bytes)
        → IsWord key
        → has_peer n.peer_host n.peer_port ≡ true
        → get (del H M n.shared key now).0.kv key ≡ []
        → get (del H M peer.shared key later).0.kv key ≡ []
        → let r = process_command M H n now (codes "DEL " ++ key) in
          (message : Bytes) × (r.sent ≡ message ∷ [])
          × ((process_command M H r.node at_node (codes "GET " ++ key)).response ≡ [])
          × ((process_command M H
                (process_command M H peer later message).node
                at_peer
                (codes "GET " ++ key)).response
              ≡ [])
    read_after_del key k reachable gone gone' =
        let r = client_del M H n now key k in
        let q = receive_del M H peer later key now k in
        (
          propagated M (codes "DEL") key [] now,
          ap (λ (x : Reply M). x.sent) r ∙ (unfold propagate_update in rw reachable refl),
          client_get _ at_node key k ∙ ap (λ (x : Reply M). get x.node.shared.kv key) r ∙ gone,
          client_get _ at_peer key k ∙ ap (λ (x : Reply M). get x.node.shared.kv key) q ∙ gone',
        )

    -- The same where both tables hold no key twice, and both hold the key, with entries not later
    -- than their node's clock.
    get_after_del :
        (key : Bytes)
        → IsWord key
        → has_peer n.peer_host n.peer_port ≡ true
        → NodupKeys n.shared.kv.store
        → NodupKeys peer.shared.kv.store
        → may_del (find key n.shared.kv.store) now ≡ true
        → may_del (find key peer.shared.kv.store) later ≡ true
        → let r = process_command M H n now (codes "DEL " ++ key) in
          (message : Bytes) × (r.sent ≡ message ∷ [])
          × ((process_command M H r.node at_node (codes "GET " ++ key)).response ≡ [])
          × ((process_command M H
                (process_command M H peer later message).node
                at_peer
                (codes "GET " ++ key)).response
              ≡ [])
    get_after_del key k reachable d d' held held' =
        read_after_del key k reachable (get-del n.shared key now d held)
          (get-del peer.shared key later d' held')
