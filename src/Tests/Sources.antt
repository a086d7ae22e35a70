-- ===== src/Tests/Sources.antt =====
-- Runs of the two nodes together in which a message is delivered, whole or cut.
use mathlib.Core.List.{Memᴰ}
use distributed_kvstore.Prelude.{◌≡◌, refl, some, [], ◌∷◌, codes, arith}
use distributed_kvstore.Text.Words.{is_space, extract}
use distributed_kvstore.Text.{bytes_dec}
use distributed_kvstore.Text.Decimal.{to_string}
use distributed_kvstore.Text.Words.Split.{words}
use distributed_kvstore.Dict.{find, assign}
use distributed_kvstore.Store.{ValueWithTimestamp, set, set_merkle_index}
use distributed_kvstore.Store.Updates.{puts}
use distributed_kvstore.Node.{
  new_node, start_anti_entropy, process_command, read_operands, dispatch, propagate_update,
  has_peer,
}
use distributed_kvstore.Node.Main.{node1, node2}
use distributed_kvstore.Cluster.{Cluster, Reach, Thread, delivered, swapped, handle, start_thread}
use distributed_kvstore.Cluster.Sources.{sources}
use distributed_kvstore.Cluster.Origin.{Reach-origin}
use distributed_kvstore.Tests.Model.{toy, front}
use distributed_kvstore.Tests.Clusters.{written, written-Reach}

abbrev message : Thread
message = start_thread (codes "PROPAGATE SET k a 7")

written-threads : written.0.threads ≡ message ∷ []
unfolding handle is_space node1 node2 start_anti_entropy new_node set_merkle_index set bytes_dec
    process_command extract read_operands dispatch assign propagate_update has_peer to_string
written-threads = refl

-- The message of the SET reaches the second node two ticks later.
abbrev told : Cluster toy
told = handle toy front (written.1, record written.0 { threads = [] }) 9 message.message

abbrev told-Reach : Reach toy front 1 told
told-Reach =
    delivered written.1 written.0 9 [] [] message written-threads (omega arith)
      (swapped written.0 written.1 written-Reach)

abbrev taken : ValueWithTimestamp
taken = record { value = codes "a"; timestamp = 9 }

told-find : find (codes "k") told.0.node.shared.kv.store ≡ some taken
unfolding handle is_space node1 node2 start_anti_entropy new_node set_merkle_index set bytes_dec
    process_command extract read_operands dispatch assign propagate_update has_peer to_string find
told-find = refl

Reach-origin_example :
    (w : ValueWithTimestamp) × (w.value ≡ codes "a")
    × Memᴰ (puts (codes "k") w) (sources toy front told-Reach)
unfolding words is_space bytes_dec to_string
Reach-origin_example =
    Reach-origin toy front 1 told.0 told.1 told-Reach
      ((((λ e. cc, ground arith), (λ e. cc, ground arith), omega arith), tt), tt) (codes "k") taken
      told-find
