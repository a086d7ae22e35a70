-- ===== src/Tests/Clusters.antt =====
-- Runs of the two nodes together.
use mathlib.Core.List.{Memᴰ}
use mathlib.Core.List.Memᴰ.{head}
use distributed_kvstore.Prelude.{
  ◌+◌, ◌*◌, ◌≤◌, ◌≡◌, refl, some, List, [], ◌∷◌, inr, codes, length, arith,
}
use distributed_kvstore.Text.Words.{is_space}
use distributed_kvstore.Text.{bytes_dec}
use distributed_kvstore.Text.Decimal.{to_string}
use distributed_kvstore.Dict.{find}
use distributed_kvstore.Store.{ValueWithTimestamp, get, set_merkle_index}
use distributed_kvstore.Node.{new_node, start_anti_entropy, process_command, propagated}
use distributed_kvstore.Node.Main.{node1, node2}
use distributed_kvstore.Node.Running.{IsRunning}
use distributed_kvstore.Cluster.{Cluster, Reach, started, commanded, handle, start, handle_read}
use distributed_kvstore.Cluster.Clocks.{Reach-get_after_set}
use distributed_kvstore.Cluster.Agreement.{Exchange, puts, removes, exchange_all, Reach-agree}
use distributed_kvstore.Text.Words.Split.{words}
use distributed_kvstore.Store.Updates.{register_run, view, puts as put}
use distributed_kvstore.Node.Contract.{answer, request, Allows}
use distributed_kvstore.Cluster.History.{history, no_registers, Reach-answers}
use distributed_kvstore.Cluster.Crossing.{Reach-crossed}
use distributed_kvstore.Cluster.Latest.{Reach-latest}
use distributed_kvstore.Cluster.Settling.{drain, emptied, Reach-settled}
use distributed_kvstore.Cluster.Invariants.{Reach-IsRunning}
use distributed_kvstore.Cluster.Threads.{attempts, Reach-attempts}
use distributed_kvstore.Tests.Model.{toy, front}

-- A client's SET at the first node.
abbrev pub written : Cluster toy
written = handle toy front (start toy front) 7 (codes "SET k a")

abbrev pub written-Reach : Reach toy front 1 written
written-Reach = commanded (start toy front) 7 (codes "SET k a") started

Reach-IsRunning_example : IsRunning toy front written.0.node × IsRunning toy front written.1.node
Reach-IsRunning_example = Reach-IsRunning toy front 1 written written-Reach

Reach-attempts_example :
    (length written.0.threads + length written.1.threads ≤ 1)
    × (attempts toy front written-Reach ≤ 5 * 1)
Reach-attempts_example = Reach-attempts toy front 1 written written-Reach

Reach-get_after_set_example :
    let r = handle_read toy front written.0.node 8 (codes "SET k b") in
    let message = propagated toy (codes "SET") (codes "k") (codes "b") 8 in
    (r.sent ≡ message ∷ [])
    × ((handle_read toy front r.node 10 (codes "GET k")).response ≡ codes "b")
    × ((handle_read toy front
          (handle_read toy front written.1.node 9 message).node
          11
          (codes "GET k")).response
        ≡ codes "b")
unfolding is_space to_string
Reach-get_after_set_example =
    Reach-get_after_set toy front 7 1 written.0 written.1 written-Reach (omega arith, tt)
      (codes "k") (codes "b") 8 9 10 11 (λ e. cc, ground arith) (λ e. cc, ground arith)
      (omega arith) (omega arith) (omega arith)

Reach-crossed_example :
    let at_first = handle_read toy front written.0.node 8 (codes "SET k x") in
    let at_second = handle_read toy front written.1.node 9 (codes "SET k y") in
    let message = propagated toy (codes "SET") (codes "k") (codes "x") 8 in
    let message' = propagated toy (codes "SET") (codes "k") (codes "y") 9 in
    (at_first.sent ≡ message ∷ [])
    × (at_second.sent ≡ message' ∷ [])
    × ((handle_read toy front
          (handle_read toy front at_first.node 10 message').node
          12
          (codes "GET k")).response
        ≡ codes "y")
    × ((handle_read toy front
          (handle_read toy front at_second.node 11 message).node
          13
          (codes "GET k")).response
        ≡ codes "x")
unfolding is_space to_string
Reach-crossed_example =
    Reach-crossed toy front 7 (codes "k") (λ e. cc, ground arith) 1 written.0 written.1
      written-Reach (omega arith, tt) (codes "x") (codes "y") 8 9 10 11 12 13
      (λ e. cc, ground arith) (λ e. cc, ground arith) (omega arith) (omega arith) (omega arith)
      (omega arith) (omega arith) (omega arith)

abbrev in_turn : List Exchange
in_turn =
    record { write = puts (codes "k") (codes "a"); now = 3; later = 4 }
    ∷ record { write = removes (codes "k"); now = 5; later = 5 }
    ∷ record { write = puts (codes "k") (codes "b"); now = 6; later = 8 }
    ∷ []

Reach-agree_example :
    let c = exchange_all toy front in_turn ((start toy front).0.node, (start toy front).1.node) in
    get c.0.shared.kv (codes "k") ≡ get c.1.shared.kv (codes "k")
unfolding is_space get node1 node2 start_anti_entropy new_node set_merkle_index find to_string
Reach-agree_example =
    Reach-agree toy front 0 0 (start toy front).0 (start toy front).1 started tt (λ j. refl) in_turn
      (
        ((λ e. cc, ground arith), (λ e. cc, ground arith)),
        omega arith,
        omega arith,
        omega arith,
        (
          (λ e. cc, ground arith),
          omega arith,
          omega arith,
          omega arith,
          (
            ((λ e. cc, ground arith), (λ e. cc, ground arith)),
            omega arith,
            omega arith,
            omega arith,
            tt,
          ),
        ),
      )
      (codes "k")

Reach-answers_example :
    let registers = register_run no_registers (history toy front written-Reach).0 in
    (view written.0.node.shared ≡ registers)
    × Allows
        (answer registers 9 (request (codes "GET k"))).1
        (process_command toy front written.0.node 9 (codes "GET k")).response
Reach-answers_example =
    Reach-answers toy front 1 written.0 written.1 written-Reach 9 (codes "GET k")

written_value :
    (answer
      (register_run no_registers (history toy front written-Reach).0)
      9
      (request (codes "GET k"))).1
    ≡ some (codes "a")
unfolding register_run words is_space bytes_dec
written_value = refl

-- Behind the SET, a DEL with an earlier time.
abbrev kept : Cluster toy
kept = handle toy front written 5 (codes "DEL k")

abbrev kept-Reach : Reach toy front 2 kept
kept-Reach = commanded written 5 (codes "DEL k") written-Reach

abbrev the_value : ValueWithTimestamp
the_value = record { value = codes "a"; timestamp = 7 }

Reach-latest_example :
    (w : ValueWithTimestamp) × (find (codes "k") kept.0.node.shared.kv.store ≡ some w)
    × (7 ≤ w.timestamp)
    × Memᴰ (put (codes "k") w) (history toy front kept-Reach).0
unfolding words is_space bytes_dec
Reach-latest_example =
    Reach-latest toy front 2 kept.0 kept.1 kept-Reach (codes "k") the_value
      (tt, (inr (omega arith), tt)) (head refl)

Reach-settled_example :
    let a' = drain toy front 9 written.0 written.1.threads in
    let b' = drain toy front 9 (emptied toy front written.1) written.0.threads in
    Reach toy front 1 (emptied toy front a', b') × (b'.threads ≡ [])
Reach-settled_example = Reach-settled toy front 1 9 written.0 written.1 written-Reach
