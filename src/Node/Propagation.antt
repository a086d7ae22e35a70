-- ===== src/Node/Propagation.antt =====
-- What one node propagates and what its peer makes of it.
pub mod Divergence
use mathlib.Core.Logic.{if_pos, if_neg}
use mathlib.Core.List.{append-nil}
use distributed_kvstore.Prelude.{
  ℕ, ◌≡◌, ◌≢◌, refl, sym, ap, ◌∙◌, ◌<◌, ◌≤◌, Bool, true, false, Option, none, some, List, [], ◌∷◌,
  ◌++◌, Bytes, codes, if◌then◌else◌, arith, leb,
}
use distributed_kvstore.Text.{◌==◌, bytes_dec}
use distributed_kvstore.Text.Words.{IsWord, is_space}
use distributed_kvstore.Text.Decimal.{to_string}
use distributed_kvstore.Text.Decimal.RoundTrip.{to_string-IsWord}
use distributed_kvstore.Dict.{HashOrder, NodupKeys, find}
use distributed_kvstore.Merkle.{Merkle}
use distributed_kvstore.Store.{ValueWithTimestamp, Shared, set, del, may_set}
use distributed_kvstore.Store.Effects.{find-set}
use distributed_kvstore.Store.Updates.{view}
use distributed_kvstore.Node.{
  Node, Reply, has_peer, dispatch, process_command, propagated, propagate_update,
}
use distributed_kvstore.Node.Reading.{
  process_command-client, process_command-propagated, process_command-two, process_command-shifted,
}
use distributed_kvstore.Text.Words.Reading.{set-IsWord, del-IsWord}

set_is_no_prefix : codes "SET" ≢ codes "PROPAGATE"
set_is_no_prefix = λ e. cc

del_is_no_prefix : codes "DEL" ≢ codes "PROPAGATE"
del_is_no_prefix = λ e. cc

pub propagate_reachable :
    (M : Merkle) (n : Node M) (command : Bytes)
    → has_peer n.peer_host n.peer_port ≡ true
    → propagate_update M n command ≡ command ∷ []
unfolding propagate_update
propagate_reachable M n command h = rw h refl

module _ (M : Merkle) (H : HashOrder) (n : Node M) (now : ℕ) where
  pub dispatch-set :
      (is_propagated : Bool) (key value rest : Bytes)
      → dispatch M H n now is_propagated (codes "SET") key value rest ≡ (
          let n' = record n { shared = (set H M n.shared key value now).0 } in
          record {
            node = n';
            response = codes "OK";
            sent =
                if is_propagated
                then []
                else propagate_update M n' (propagated M (codes "SET") key value now);
          })
  unfolding dispatch bytes_dec
  dispatch-set is_propagated key value rest = refl

  pub dispatch-del :
      (is_propagated : Bool) (key value rest : Bytes)
      → dispatch M H n now is_propagated (codes "DEL") key value rest ≡ (
          let n' = record n { shared = (del H M n.shared key now).0 } in
          record {
            node = n';
            response = codes "OK";
            sent =
                if is_propagated
                then []
                else propagate_update M n' (propagated M (codes "DEL") key value now);
          })
  unfolding dispatch bytes_dec
  dispatch-del is_propagated key value rest = refl

  -- A propagated SET of words: the timestamp behind the value is not read.
  pub receive_set :
      (key value : Bytes) (timestamp : ℕ)
      → IsWord key
      → IsWord value
      → process_command M H n now (propagated M (codes "SET") key value timestamp) ≡ record {
        node = record n { shared = (set H M n.shared key value now).0 };
        response = codes "OK";
        sent = [];
      }
  unfolding is_space
  receive_set key value timestamp k v =
      process_command-propagated M H n now (codes "SET") key value (32 ∷ to_string timestamp)
        set-IsWord k v refl
      ∙ dispatch-set true key value (32 ∷ to_string timestamp)

  pub client_set :
      (key value : Bytes)
      → IsWord key
      → IsWord value
      → process_command M H n now (codes "SET " ++ (key ++ 32 ∷ value)) ≡ record {
        node = record n { shared = (set H M n.shared key value now).0 };
        response = codes "OK";
        sent = propagate_update M n (propagated M (codes "SET") key value now);
      }
  client_set key value k v =
      ap (λ (w : Bytes). process_command M H n now (codes "SET " ++ (key ++ 32 ∷ w)))
        (sym (append-nil value))
      ∙ process_command-client M H n now (codes "SET") key value [] set-IsWord (set_is_no_prefix) k
          v tt
      ∙ dispatch-set false key value []
      ∙ unfold propagate_update in refl

  pub client_del :
      (key : Bytes)
      → IsWord key
      → process_command M H n now (codes "DEL " ++ key) ≡ record {
        node = record n { shared = (del H M n.shared key now).0 };
        response = codes "OK";
        sent = propagate_update M n (propagated M (codes "DEL") key [] now);
      }
  client_del key k =
      process_command-two M H n now (codes "DEL") key del-IsWord del_is_no_prefix k
      ∙ dispatch-del false key [] []
      ∙ unfold propagate_update in refl

  -- A propagated DEL: the two blanks behind the key are skipped.
  pub receive_del :
      (key : Bytes) (timestamp : ℕ)
      → IsWord key
      → process_command M H n now (propagated M (codes "DEL") key [] timestamp) ≡ record {
        node = record n { shared = (del H M n.shared key now).0 };
        response = codes "OK";
        sent = [];
      }
  receive_del key timestamp k =
      process_command-shifted M H n now (codes "DEL") key (to_string timestamp) del-IsWord k
        (to_string-IsWord timestamp)
      ∙ dispatch-del true key (to_string timestamp) []

  -- A SET with no value reaches the peer as a SET of the timestamp's digits.
  pub receive_shifted :
      (key : Bytes) (timestamp : ℕ)
      → IsWord key
      → process_command M H n now (propagated M (codes "SET") key [] timestamp) ≡ record {
        node = record n { shared = (set H M n.shared key (to_string timestamp) now).0 };
        response = codes "OK";
        sent = [];
      }
  receive_shifted key timestamp k =
      process_command-shifted M H n now (codes "SET") key (to_string timestamp) set-IsWord k
        (to_string-IsWord timestamp)
      ∙ dispatch-set true key (to_string timestamp) []

  pub client_set_empty :
      (key : Bytes)
      → IsWord key
      → process_command M H n now (codes "SET " ++ key) ≡ record {
        node = record n { shared = (set H M n.shared key [] now).0 };
        response = codes "OK";
        sent = propagate_update M n (propagated M (codes "SET") key [] now);
      }
  client_set_empty key k =
      process_command-two M H n now (codes "SET") key set-IsWord set_is_no_prefix k
      ∙ dispatch-set false key [] []
      ∙ unfold propagate_update in refl

module _ (M : Merkle) (H : HashOrder) (n peer : Node M) (now later : ℕ) where
  -- The peer takes over a SET that a client made on a node which has a peer: of two words, the node
  -- stores the value at its time and sends one message, with which the peer stores the same value
  -- under the same key at its own time, answers OK and sends nothing on.
  replicate_set :
      (key value : Bytes)
      → IsWord key
      → IsWord value
      → has_peer n.peer_host n.peer_port ≡ true
      → let r = process_command M H n now (codes "SET " ++ (key ++ 32 ∷ value)) in
        (message : Bytes) × (r.sent ≡ message ∷ [])
        × (r.node.shared ≡ (set H M n.shared key value now).0)
        × (process_command M H peer later message ≡ record {
          node = record peer { shared = (set H M peer.shared key value later).0 };
          response = codes "OK";
          sent = [];
        })
  replicate_set key value k v reachable = (
    propagated M (codes "SET") key value now,
    ap (λ (r : Reply M). r.sent) (client_set M H n now key value k v)
        ∙ propagate_reachable M n _ reachable,
    ap (λ (r : Reply M). r.node.shared) (client_set M H n now key value k v),
    receive_set M H peer later key value now k v,
  )

  -- The peer takes over a DEL of one word that a client made on a node which has a peer: the node
  -- deletes the key at its time and sends one message, with which the peer deletes the key at its own
  -- time, answers OK and sends nothing on.
  replicate_del :
      (key : Bytes)
      → IsWord key
      → has_peer n.peer_host n.peer_port ≡ true
      → let r = process_command M H n now (codes "DEL " ++ key) in
        (message : Bytes) × (r.sent ≡ message ∷ [])
        × (r.node.shared ≡ (del H M n.shared key now).0)
        × (process_command M H peer later message ≡ record {
          node = record peer { shared = (del H M peer.shared key later).0 };
          response = codes "OK";
          sent = [];
        })
  replicate_del key k reachable = (
    propagated M (codes "DEL") key [] now,
    ap (λ (r : Reply M). r.sent) (client_del M H n now key k) ∙ propagate_reachable M n _ reachable,
    ap (λ (r : Reply M). r.node.shared) (client_del M H n now key k),
    receive_del M H peer later key now k,
  )
