-- ===== src/Tests/Rounds.antt =====
-- Runs of anti-entropy and of the requests to a peer.
use distributed_kvstore.Prelude.{
  ℕ, zero, suc, ◌≡◌, ◌<◌, refl, Bool, true, false, some, List, [], ◌∷◌, Bytes, codes, arith, ok,
  length, ◌⊎◌, ◌++◌, take,
}
use distributed_kvstore.Dict.{Dict, find, NodupKeys}
use distributed_kvstore.Dict.Merge.{map_entry}
use distributed_kvstore.MerkleIndex.{get_root_hash, new_index}
use distributed_kvstore.Store.{set_merkle_index, get_all_keys_with_timestamps}
use distributed_kvstore.Text.{bytes_dec}
use distributed_kvstore.Text.Words.{is_space, extract}
use distributed_kvstore.Text.Decimal.{to_string}
use distributed_kvstore.Text.Fields.{fields, fields_after, break_at}
use distributed_kvstore.Node.{
  Node, process_command, read_operands, dispatch, AntiEntropyManager, SyncMode, deref, list_keys,
  list_paths,
}
use distributed_kvstore.Session.{Server, session_world}
use distributed_kvstore.Session.OneRequest.{rounds-same}
use distributed_kvstore.AntiEntropy.{
  run_anti_entropy, start_rounds, parse_peer_paths, remote_paths, firsts, parse_peer_keys,
  keys_of_entries,
}
use distributed_kvstore.AntiEntropy.Safety.{IsLater, rounds-IsLater}
use distributed_kvstore.AntiEntropy.Outcomes.{empty_index_stays}
use distributed_kvstore.AntiEntropy.Listing.{cut_listing}
use distributed_kvstore.AntiEntropy.RoundTrip.{read_response}
use distributed_kvstore.Requests.Fuel.{parse_keys-fuel}
use distributed_kvstore.Requests.{parse_keys, parse_keys_with_timestamps, propagation_thread}
use distributed_kvstore.Requests.Listing.{parse-list_keys}
use distributed_kvstore.Requests.Retry.{propagation_thread-outcome}
use distributed_kvstore.Io.{World}
use distributed_kvstore.Tests.Model.{toy, toy-IsMerkle, front, link}
use distributed_kvstore.Tests.Storage.{with_entry, with_entry-NodupKeys, indexed, indexed-IsSynced}
use distributed_kvstore.Tests.Nodes.{second_node}

abbrev pub manager : AntiEntropyManager
manager = record {
  peer_host = codes "127.0.0.1";
  peer_port = 5009;
  sync_mode = SyncMode.merkle_tree;
  merkle_index = some 0;
}

abbrev server : Server toy
server = record { node = second_node; waiting = false; time = 7 }

pub indexed-NodupKeys : NodupKeys indexed.kv.store
unfolding set_merkle_index find
indexed-NodupKeys = (refl, tt)

rounds-IsLater_example :
    IsLater front toy indexed
      (start_rounds toy front (session_world toy front link) 2 manager (indexed, server)).1.0
rounds-IsLater_example =
    rounds-IsLater toy front (session_world toy front link) 2 manager indexed server
      indexed-NodupKeys indexed-IsSynced

rounds-same_example :
    (start_rounds toy front (session_world toy front link) 2 manager (indexed, server)).1.0
    ≡ indexed
rounds-same_example = rounds-same toy front link 2 manager indexed server

-- A peer that always answers with one text, and counts the exchanges.
abbrev answers : Bytes → World
answers s = record {
  State = ℕ;
  connect = λ n. (ok tt, n);
  exchange = λ m n request. (ok s, suc n);
  clock = λ n. n;
}

abbrev indexed_root : Bytes
indexed_root = toy.hash_string (get_root_hash toy (deref toy indexed.memory 0))

empty_index_stays_example :
    (run_anti_entropy toy front
      (answers (codes "x,00;"))
      manager
      (record indexed { memory = new_index toy ∷ [] }, 0)).1.0
    ≡ record indexed { memory = new_index toy ∷ [] }
empty_index_stays_example =
    empty_index_stays toy front (answers (codes "x,00;")) manager 0
      (record indexed { memory = new_index toy ∷ [] }) 0 refl refl

read_response_example :
    (l : List (Bytes × Bytes)) × (parse_peer_paths
        (list_paths toy (codes "k" ∷ codes "j" ∷ []) (3 ∷ 5 ∷ []))
      ≡ ok l)
    × (remote_paths toy l ≡ ok (3 ∷ 5 ∷ []))
    × (firsts l ≡ codes "k" ∷ codes "j" ∷ [])
read_response_example =
    read_response toy toy-IsMerkle (codes "k" ∷ codes "j" ∷ []) (3 ∷ 5 ∷ [])
      (
        ((λ e. omega (arith, e), tt), (λ e. omega (arith, e), tt)),
        (((λ e. omega (arith, e), tt), (λ e. omega (arith, e), tt)), tt),
      )
      refl

parse-list_keys_example :
    (out : Dict ℕ) × (parse_keys_with_timestamps front
        (list_keys (get_all_keys_with_timestamps with_entry.kv))
      ≡ ok out)
    × ((k : Bytes) → find k out ≡ map_entry (λ v. v.timestamp) (find k with_entry.kv.store))
unfolding get_all_keys_with_timestamps
parse-list_keys_example =
    parse-list_keys front with_entry.kv with_entry-NodupKeys
      (((λ e. omega (arith, e), tt), omega arith), tt)

abbrev on_third : ℕ → Bool
on_third zero = false
on_third (suc zero) = false
on_third (suc (suc n)) = true

propagation_thread-outcome_example :
    ((i : ℕ) × (i < 5)
      × (on_third i ≡ true)
      × ((j : ℕ) → j < i → on_third j ≡ false)
      × ((propagation_thread on_third).delivered ≡ true)
      × (length (propagation_thread on_third).delays ≡ suc i))
    ⊎ (((j : ℕ) → j < 5 → on_third j ≡ false)
        × (propagation_thread on_third
            ≡ record { delays = 100 ∷ 200 ∷ 400 ∷ 800 ∷ 1600 ∷ []; delivered = false }))
propagation_thread-outcome_example = propagation_thread-outcome on_third

third_attempt :
    propagation_thread on_third ≡ record { delays = 100 ∷ 200 ∷ 400 ∷ []; delivered = true }
unfolding propagation_thread
third_attempt = refl

parse_keys-fuel_example :
    parse_keys front 9 (codes "k:5;j") [] ≡ some (parse_keys_with_timestamps front (codes "k:5;j"))
parse_keys-fuel_example = parse_keys-fuel front 9 (codes "k:5;j") (omega arith)

abbrev two_keys : Node toy
two_keys = record second_node {
  shared = record second_node.shared {
    kv = record second_node.shared.kv {
      store =
          (codes "a", record { value = codes "x"; timestamp = 3 })
          ∷ (codes "b", record { value = codes "y"; timestamp = 4 })
          ∷ [];
    };
  };
}

cut_listing_example :
    (rest : List Bytes) × (firsts (get_all_keys_with_timestamps two_keys.shared.kv)
      ≡ parse_peer_keys (take 5 (process_command toy front two_keys 7 (codes "GET_ALL")).response)
        ++ rest)
unfolding get_all_keys_with_timestamps
cut_listing_example =
    cut_listing toy front two_keys 7 5
      (((omega arith, tt), (omega arith, tt)), (((omega arith, tt), (omega arith, tt)), tt))

-- The second key is cut.
cut_behind_a :
    parse_peer_keys (take 5 (process_command toy front two_keys 7 (codes "GET_ALL")).response)
    ≡ codes "a" ∷ []
unfolding process_command extract read_operands dispatch is_space bytes_dec
    get_all_keys_with_timestamps list_keys to_string parse_peer_keys keys_of_entries fields
    fields_after break_at
cut_behind_a = refl
