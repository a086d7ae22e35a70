-- ===== src/Tests/Nodes.antt =====
-- Runs of the two nodes' handlers.
use distributed_kvstore.Prelude.{ℕ, ◌≡◌, refl, false, some, List, [], ◌∷◌, ◌++◌, Bytes, codes}
use distributed_kvstore.Text.{bytes_dec}
use distributed_kvstore.Text.Words.{is_space, IsWord}
use distributed_kvstore.Text.Decimal.{to_string}
use distributed_kvstore.Dict.{find, assign}
use distributed_kvstore.MerkleIndex.{rebuild}
use distributed_kvstore.Store.{set_merkle_index, rebuild_index, get_all_key_value_data}
use distributed_kvstore.Store.Updates.{view}
use distributed_kvstore.Node.{Node, has_peer, new_node, start_anti_entropy, process_command}
use distributed_kvstore.Node.Main.{node1, node2}
use distributed_kvstore.Node.Running.{IsRunning, start_anti_entropy-IsRunning}
use distributed_kvstore.Text.Words.Split.{words}
use distributed_kvstore.Node.Contract.{answer_all, AllowsAll}
use distributed_kvstore.Node.Refinement.{handle_all, handle_all-answers}
use distributed_kvstore.Node.Propagation.Divergence.{empty_value_diverges}
use distributed_kvstore.Node.Paths.{get_paths_unread}
use distributed_kvstore.Tests.Model.{toy, front}
use distributed_kvstore.Tests.Storage.{indexed, with_entry, with_entry-NodupKeys}

abbrev pub first_node : Node toy
first_node = node1 toy front

abbrev pub second_node : Node toy
second_node = node2 toy front

-- The second node with an entry and without an index.
abbrev pub holding : Node toy
holding = record second_node { shared = with_entry }

pub first_node-IsRunning : IsRunning toy front first_node
unfolding new_node node1
first_node-IsRunning =
    start_anti_entropy-IsRunning toy front (new_node toy (codes "127.0.0.1") 5009) tt

pub one_byte-IsWord : (c : ℕ) → is_space c ≡ false → IsWord (c ∷ [])
one_byte-IsWord c h = (λ e. cc, (h, tt))

empty_value_diverges_example :
    let r = process_command toy front first_node 7 (codes "SET " ++ codes "k") in
    (message : Bytes) × (r.sent ≡ message ∷ [])
    × (view r.node.shared (codes "k") ≡ some (record { value = []; timestamp = 7 }))
    × (view (process_command toy front holding 9 message).node.shared (codes "k")
        ≡ some (record { value = to_string 7; timestamp = 9 }))
unfolding is_space has_peer node1 start_anti_entropy new_node set_merkle_index find bytes_dec
empty_value_diverges_example =
    empty_value_diverges toy front first_node holding 7 9 (codes "k") (one_byte-IsWord b'k' refl)
      refl tt with_entry-NodupKeys refl refl

abbrev serving : Node toy
serving = record first_node { shared = indexed }

get_paths_unread_example :
    process_command toy front serving 7 (codes "GET_PATHS " ++ codes "k")
    ≡ record { node = serving; response = []; sent = [] }
unfolding is_space node1 start_anti_entropy new_node get_all_key_value_data rebuild set_merkle_index
    assign rebuild_index
get_paths_unread_example =
    get_paths_unread toy front serving 7 (codes "k")
      (rebuild toy front (get_all_key_value_data front indexed.kv)) refl (refl, tt)

-- A client's write, what the peer propagates, a read, and a command that is none.
abbrev mixed : List (ℕ × Bytes)
mixed =
    (7, codes " SET  k a b")
    ∷ (8, codes "PROPAGATE DEL k")
    ∷ (9, codes "GET k")
    ∷ (9, codes "PROPAGATE SET j c 5")
    ∷ (9, codes "GET j")
    ∷ (10, codes "MAKE k")
    ∷ []

mixed_allowed :
    (answer_all (view first_node.shared) mixed).1
    ≡ some (codes "OK")
      ∷ some (codes "OK")
      ∷ some []
      ∷ some (codes "OK")
      ∷ some (codes "c")
      ∷ some (codes "Invalid command")
      ∷ []
unfolding words is_space bytes_dec find node1 start_anti_entropy new_node set_merkle_index
mixed_allowed = refl

handle_all-answers_example :
    let (n', responses) = handle_all toy front first_node mixed in
    let (registers, allowed) = answer_all (view first_node.shared) mixed in
    (view n'.shared ≡ registers) × AllowsAll allowed responses
unfolding node1 start_anti_entropy new_node set_merkle_index
handle_all-answers_example = handle_all-answers toy front mixed first_node tt
