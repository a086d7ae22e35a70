-- ===== src/Tests/Replies.antt =====
-- The commands of the store itself, at concrete entries.
use distributed_kvstore.Prelude.{◌≡◌, refl, ◌∷◌, ◌++◌, codes}
use distributed_kvstore.Text.Words.{is_space}
use distributed_kvstore.Dict.{find}
use distributed_kvstore.Store
use distributed_kvstore.Store.{set_merkle_index, set, del, get, may_set, may_del}
use distributed_kvstore.Store.Replies.{set_answer, del_answer, process_command-replies}
use distributed_kvstore.Tests.Model.{toy, front}
use distributed_kvstore.Tests.Storage.{with_entry}
use distributed_kvstore.Tests.Nodes.{one_byte-IsWord}

process_command-replies_example :
    (Store.process_command front toy with_entry 4 (codes "SET " ++ (codes "k" ++ 32 ∷ codes "a"))
      ≡ (
        (set front toy with_entry (codes "k") (codes "a") 4).0,
        set_answer front toy with_entry 4 (may_set (find (codes "k") with_entry.kv.store) 4),
      ))
    × (Store.process_command front toy with_entry 4 (codes "DEL " ++ codes "k") ≡ (
      (del front toy with_entry (codes "k") 4).0,
      del_answer front toy with_entry 4 (may_del (find (codes "k") with_entry.kv.store) 4),
    ))
    × (Store.process_command front toy with_entry 4 (codes "GET " ++ codes "k")
        ≡ (with_entry, get with_entry.kv (codes "k")))
unfolding is_space
process_command-replies_example =
    process_command-replies front toy with_entry 4 (codes "k") (codes "a")
      (one_byte-IsWord b'k' refl) (one_byte-IsWord b'a' refl)
