-- ===== src/Requests/FetchAll.antt =====
-- `fetch_and_update_all_keys` asks for `GET ALL`, which a node reads as GET of the key `ALL`.
use distributed_kvstore.Prelude.{ℕ, ◌≡◌, refl, [], codes, Bool-cases, inl, inr}
use distributed_kvstore.Text.{bytes_dec}
use distributed_kvstore.Text.Words.{extract}
use distributed_kvstore.Dict.{HashOrder}
use distributed_kvstore.Merkle.{Merkle}
use distributed_kvstore.Store.{Shared, get}
use distributed_kvstore.Node.{Node, dispatch, read_operands, process_command}
use distributed_kvstore.Session.{Link, Server, start_session, session_exchange, session_world}
use distributed_kvstore.Requests.{fetch_and_update_all_keys}

module _ (M : Merkle) (H : HashOrder) where
  get_all_is_get :
      (n : Node M) (now : ℕ)
      → process_command M H n now (codes "GET ALL")
        ≡ record { node = n; response = get n.shared.kv (codes "ALL"); sent = [] }
  unfolding process_command read_operands dispatch extract bytes_dec
  get_all_is_get n now = refl

  -- Against a node without a value for the key `ALL`, `fetch_and_update_all_keys` changes nothing,
  -- whatever keys the node has: it reads an empty answer, not the list of keys.
  fetch_all_stays :
      (l : Link) (s : Shared M) (v : Server M)
      → get v.node.shared.kv (codes "ALL") ≡ []
      → (fetch_and_update_all_keys H M (session_world M H l) (s, v)).1.0 ≡ s
  unfolding fetch_and_update_all_keys start_session session_exchange
  fetch_all_stays l s v h = elim (Bool-cases (l.accepts v.time)) [
    | inl e ↦ rw (e, get_all_is_get, h) refl
    | inr e ↦ rw e refl
  ]
