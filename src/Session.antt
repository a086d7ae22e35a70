-- ===== src/Session.antt =====
-- Node::Session of node.hpp, as the world of a client: a connection is read once, the command is
-- handled, the response is written, and the session ends with its connection.
pub mod OneRequest
pub mod Events
use distributed_kvstore.Prelude.{
  ℕ, Bool, true, false, List, [], ◌∷◌, Bytes, take, Result, ok, err, system_error, if◌then◌else◌,
}
use distributed_kvstore.Dict.{HashOrder}
use distributed_kvstore.Merkle.{Merkle}
use distributed_kvstore.Node.{Node, Reply, process_command}
use distributed_kvstore.Io.{World}

-- The network and the clocks: when a connection is accepted, how long an exchange takes, and the
-- server's clock at a time of the client's. A response that fits the client's buffer arrives in one
-- piece.
pub record Link : Type 0 where
  pub accepts : ℕ → Bool
  pub elapse : ℕ → ℕ
  pub server_clock : ℕ → ℕ

-- The node that serves, whether the last connection still waits for its request, and the time.
pub record Server (M : Merkle) : Type 0 where
  pub node : Node M
  pub waiting : Bool
  pub time : ℕ

module _ (M : Merkle) (H : HashOrder) (l : Link) where
  -- `start_accept`: a connection becomes a session, whose `start` is `do_read`.
  unfoldable pub start_session : Server M → Result (Unit {0}) × Server M
  start_session v =
      if l.accepts v.time then (ok tt, record v { waiting = true }) else (err system_error, v)

  -- The client reads an end of file where the response is empty.
  abbrev pub written : ℕ → Bytes → Result Bytes
  written n [] = err system_error
  written n (c ∷ s) = ok (take n (c ∷ s))

  -- The read of `do_read` into 1024 bytes, then `do_write`. There is no second read.
  unfoldable pub serve : ℕ → Server M → Bytes → Result Bytes × Server M
  serve n v request =
      let reply = process_command M H v.node (l.server_clock v.time) (take 1024 request) in
      (
        written n reply.response,
        record { node = reply.node; waiting = false; time = l.elapse v.time },
      )

  unfoldable pub session_exchange : ℕ → Server M → Bytes → Result Bytes × Server M
  unfolding serve
  session_exchange n v request = if v.waiting then serve n v request else (err system_error, v)

  abbrev pub session_world : World
  session_world = record {
    State = Server M;
    connect = start_session;
    exchange = session_exchange;
    clock = λ v. v.time;
  }
