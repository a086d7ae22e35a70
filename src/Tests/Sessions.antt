-- ===== src/Tests/Sessions.antt =====
-- Runs of a listening node.
use distributed_kvstore.Prelude.{
  ℕ, zero, suc, List, [], ◌∷◌, ◌++◌, Bytes, ap, All, ◌+◌, ◌≤◌, ◌≡◌, refl, true, false, some, codes,
  length,
}
use distributed_kvstore.Session.Events.{
  Listener, Serves, listen, listening, accepted, received, on_accept, on_read, on_write, written,
}
use distributed_kvstore.Text.Words.{is_space, extract}
use distributed_kvstore.Store.{set, get, set_merkle_index}
use distributed_kvstore.Session.Events.Linear.{
  Entry, commands, log_of, Serves-linear, Serves-registers,
}
use distributed_kvstore.Store.Updates.{view}
use distributed_kvstore.Text.{bytes_dec}
use distributed_kvstore.Dict.{assign}
use distributed_kvstore.Node.{
  process_command, read_operands, dispatch, start_anti_entropy, new_node,
}
use distributed_kvstore.Node.Main.{node1}
use distributed_kvstore.Node.Contract.{answer, answer_all, request, Allows}
use distributed_kvstore.Session.Events.Bounded.{Serves-bounded, unread}
use distributed_kvstore.Node.Running.{IsRunning}
use distributed_kvstore.Tests.Model.{toy, front}
use distributed_kvstore.Tests.Nodes.{first_node, first_node-IsRunning}

abbrev connected : Listener toy
connected = on_accept toy false (listen toy first_node)

abbrev asked : Listener toy
asked = on_read toy front 0 7 (some (codes "SET k a")) connected

asked-Serves : Serves toy front first_node 1 1 asked
unfolding on_accept
asked-Serves =
    received connected 0 7 (codes "SET k a") refl (accepted (listen toy first_node) refl listening)

Serves-bounded_example :
    (asked.accepting ≡ true)
    × (length asked.sessions ≡ 1)
    × (1 + unread asked.sessions ≤ 1)
    × IsRunning toy front asked.node
Serves-bounded_example =
    Serves-bounded toy front first_node 1 1 asked first_node-IsRunning asked-Serves

-- A second client, whose GET comes behind the SET of the first.
abbrev asked_again : Listener toy
asked_again = on_read toy front 1 9 (some (codes "GET k")) (on_accept toy false asked)

asked_again-Serves : Serves toy front first_node 2 2 asked_again
unfolding on_accept on_read
asked_again-Serves =
    received (on_accept toy false asked) 1 9 (codes "GET k") refl (accepted asked refl asked-Serves)

-- Behind the end of both sessions.
abbrev quiet : Listener toy
quiet = on_write toy 1 (on_write toy 0 asked_again)

quiet-Serves : Serves toy front first_node 2 2 quiet
unfolding on_accept on_read on_write process_command bytes_dec extract read_operands dispatch get
    set node1 start_anti_entropy set_merkle_index new_node assign
quiet-Serves =
    written (on_write toy 0 asked_again) 1 (codes "a") refl
      (written asked_again 0 (codes "OK") refl asked_again-Serves)

Serves-registers_example :
    view quiet.node.shared
    ≡ (answer_all (view first_node.shared) (commands (log_of toy front first_node quiet-Serves))).0
Serves-registers_example =
    Serves-registers toy front first_node 2 2 quiet quiet-Serves first_node-IsRunning.distinct

Serves-linear_example :
    (before : List Entry) × (now : ℕ) × (command : Bytes) × (later : List Entry) × (log_of toy front
        first_node asked_again-Serves
      ≡ before ++ (1, (now, command)) ∷ later)
    × Allows
        (answer (answer_all (view first_node.shared) (commands before)).0 now (request command)).1
        (codes "a")
unfolding on_accept on_read process_command bytes_dec extract read_operands dispatch get set node1
    start_anti_entropy set_merkle_index new_node assign
Serves-linear_example =
    Serves-linear toy front first_node 2 2 asked_again asked_again-Serves 1 (codes "a")
      first_node-IsRunning.distinct refl

abbrev pub repeat : ℕ → ℕ → Bytes
repeat zero c = []
repeat (suc n) c = c ∷ repeat n c

pub length-repeat : (n c : ℕ) → length (repeat n c) ≡ n
length-repeat zero c = refl
length-repeat (suc n) c = ap suc (length-repeat n c)

pub repeat_solid : (n : ℕ) → All (λ c. is_space c ≡ false) (repeat n b'a')
unfolding is_space
repeat_solid zero = tt
repeat_solid (suc n) = (refl, repeat_solid n)
