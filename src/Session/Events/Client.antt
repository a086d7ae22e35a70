-- ===== src/Session/Events/Client.antt =====
-- The events of one connection, as its client meets them.
use distributed_kvstore.Prelude.{
  ℕ, ◌≡◌, refl, Bool, true, false, some, [], ◌∷◌, Bytes, take, get_elem?, get_elem?-set_elem_self,
  length, length-append, arith,
}
use distributed_kvstore.Dict.{HashOrder}
use distributed_kvstore.Merkle.{Merkle}
use distributed_kvstore.Node.{process_command}
use distributed_kvstore.Session.{Link, Server, start_session, session_exchange, serve, written}
use distributed_kvstore.Session.Events.{Listener, reading, writing, on_accept, on_read}

module _ (M : Merkle) (H : HashOrder) (link : Link) (l : Listener M) where
  -- The node of a client's world is the one that listens, and its connection is accepted: then the
  -- accept and the read of its request leave the node as the exchange does, and the new session
  -- writes the response that the client reads.
  exchange_events :
      (n time : ℕ) (waiting : Bool) (request : Bytes)
      → link.accepts time ≡ true
      → let v : Server M = record { node = l.node; waiting = waiting; time = time } in
        let exchanged = session_exchange M H link n (start_session M H link v).1 request in
        let after =
          on_read M H
            (length l.sessions)
            (link.server_clock time)
            (some request)
            (on_accept M false l) in
        (response : Bytes) × (get_elem? after.sessions (length l.sessions)
          ≡ some (writing response))
        × (exchanged.0 ≡ written M H link n response)
        × (exchanged.1.node ≡ after.node)
  unfolding start_session session_exchange serve on_accept on_read
  exchange_events n time waiting request e =
      let response =
        (process_command M H l.node (link.server_clock time) (take 1024 request)).response in
      (
        response,
        get_elem?-set_elem_self _ (length l.sessions) (writing response)
            (omega (arith, length-append l.sessions (reading ∷ []))),
        rw e refl,
        rw e refl,
      )
