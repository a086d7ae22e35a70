-- ===== src/Session/Events.antt =====
-- The acceptor and the sessions of one node as the event loop drives them: `start_accept` of node.cpp,
-- `Node::Session` of node.hpp. Each completion of an asynchronous operation is an event.
pub mod Bounded
pub mod Client
pub mod Truncation
pub mod Linear
use distributed_kvstore.Prelude.{
  ℕ, zero, suc, ◌≡◌, Bool, true, false, Option, none, some, List, [], ◌∷◌, ◌++◌, Bytes, take,
  get_elem?, set_elem, if◌then◌else◌,
}
use distributed_kvstore.Dict.{HashOrder}
use distributed_kvstore.Merkle.{Merkle}
use distributed_kvstore.Node.{Node, process_command}

-- What a session waits for: its read, the end of its write, or nothing, where its last reference and
-- its socket are gone.
pub data Stage : Type 0 where
  reading : Stage
  writing : (response : Bytes) → Stage
  ended : Stage

-- The node, whether an accept is pending, the sessions in the order of their connections, and the
-- messages that the handler has given to threads.
pub record Listener (M : Merkle) : Type 0 where
  pub node : Node M
  pub accepting : Bool
  pub sessions : List Stage
  pub outgoing : List Bytes

module _ (M : Merkle) where
  abbrev pub start_accept : Listener M → Listener M
  start_accept l = record l { accepting = true }

  -- `std::make_shared<Session>(…)->start()`
  abbrev pub add_session : Listener M → Listener M
  add_session l = record l { sessions = l.sessions ++ reading ∷ [] }

  -- The handler of `async_accept`.
  unfoldable pub on_accept : Bool → Listener M → Listener M
  on_accept failed l =
      let completed = record l { accepting = false } in
      start_accept (if failed then completed else add_session completed)

  module _ (H : HashOrder) where
    -- The handler of `async_read_some`: what was received, at most 1024 bytes, or an error.
    unfoldable pub on_read : ℕ → ℕ → Option Bytes → Listener M → Listener M
    on_read i now none l = record l { sessions = set_elem l.sessions i ended }
    on_read i now (some received) l =
        let r = process_command M H l.node now (take 1024 received) in
        record l {
          node = r.node;
          sessions = set_elem l.sessions i (writing r.response);
          outgoing = l.outgoing ++ r.sent;
        }

  -- The handler of `async_write`, with an error or without.
  unfoldable pub on_write : ℕ → Listener M → Listener M
  on_write i l = record l { sessions = set_elem l.sessions i ended }

  -- The constructor's `start_accept`.
  abbrev pub listen : Node M → Listener M
  listen n = start_accept (record { node = n; accepting = false; sessions = []; outgoing = [] })

  -- The listeners that a node comes to, with the connections that it accepted and the requests that it
  -- handled. An event of a session comes only where the session waits for it.
  pub data Serves (H : HashOrder) (n : Node M) : ℕ → ℕ → Listener M → Type 0 where
    listening : Serves H n 0 0 (listen n)
    accepted :
        {a h : ℕ} (l : Listener M)
        → l.accepting ≡ true
        → Serves H n a h l
        → Serves H n (suc a) h (on_accept false l)
    accept_failed :
        {a h : ℕ} (l : Listener M)
        → l.accepting ≡ true
        → Serves H n a h l
        → Serves H n a h (on_accept true l)
    received :
        {a h : ℕ} (l : Listener M) (i now : ℕ) (request : Bytes)
        → get_elem? l.sessions i ≡ some reading
        → Serves H n a h l
        → Serves H n a (suc h) (on_read H i now (some request) l)
    read_failed :
        {a h : ℕ} (l : Listener M) (i now : ℕ)
        → get_elem? l.sessions i ≡ some reading
        → Serves H n a h l
        → Serves H n a h (on_read H i now none l)
    written :
        {a h : ℕ} (l : Listener M) (i : ℕ) (response : Bytes)
        → get_elem? l.sessions i ≡ some (writing response)
        → Serves H n a h l
        → Serves H n a h (on_write i l)
