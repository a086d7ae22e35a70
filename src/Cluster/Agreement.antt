-- ===== src/Cluster/Agreement.antt =====
-- Writes of one node's clients, each delivered before the next: the nodes come to hold the same values.
use mathlib.Core.Path.{subst}
use distributed_kvstore.Node.Fits.{Fits, take_set, take-propagated, take_command}
use distributed_kvstore.Prelude.{
  ℕ, ◌≤◌, ◌≡◌, refl, sym, ap, ◌∙◌, true, List, [], ◌∷◌, ◌++◌, Bytes, codes, arith, inl, inr,
  Option-cases, if◌then◌else◌,
}
use distributed_kvstore.Text.{◌==◌}
use distributed_kvstore.Text.Words.{IsWord}
use distributed_kvstore.Dict.{HashOrder, find}
use distributed_kvstore.Merkle.{Merkle}
use distributed_kvstore.Store.{Shared, get, set, del}
use distributed_kvstore.Store.Effects.{find-set, find-del}
use distributed_kvstore.Node.{Node, Reply, has_peer, process_command, propagate_update, propagated}
use distributed_kvstore.Node.Propagation.{client_set, client_del, receive_set, receive_del}
use distributed_kvstore.Cluster.{Reach, End, handle_read}
use distributed_kvstore.Cluster.Clocks.{
  IsTimely, IsUpToDate, set-IsTimely, del-IsTimely, IsTimely-may_set, Reach-IsUpToDate, Before,
}

-- A client's command of words.
pub data Write : Type 0 where
  puts : (key value : Bytes) → Write
  removes : (key : Bytes) → Write

abbrev command : Write → Bytes
command (puts key value) = codes "SET " ++ (key ++ 32 ∷ value)
command (removes key) = codes "DEL " ++ key

abbrev IsOfWords : Write → Type 0
IsOfWords (puts key value) = IsWord key × IsWord value
IsOfWords (removes key) = IsWord key

-- A write, the node's clock when it handles it, and the peer's when the message arrives.
pub record Exchange : Type 0 where
  pub write : Write
  pub now : ℕ
  pub later : ℕ

module _ (M : Merkle) where
  -- The 1024 bytes of a session's buffer hold the message of the write.
  abbrev IsHeld : Write → ℕ → Type 0
  IsHeld (puts key value) now = Fits M (codes "SET") key value now
  IsHeld (removes key) now = Fits M (codes "DEL") key [] now

  -- The clocks show no earlier time than at any write before, words are what is written, and no
  -- message is cut.
  abbrev pub IsInOrder : ℕ → List Exchange → Type 0
  IsInOrder limit [] = Unit
  IsInOrder limit (x ∷ xs) =
      IsOfWords x.write
      × IsHeld x.write x.now
      × (limit ≤ x.now)
      × (x.now ≤ x.later)
      × IsInOrder x.later xs

module _ (M : Merkle) (H : HashOrder) where
  abbrev deliver : ℕ → List Bytes → Node M → Node M
  deliver now [] n = n
  deliver now (message ∷ messages) n = deliver now messages (handle_read M H n now message).node

  abbrev exchange : Exchange → Node M × Node M → Node M × Node M
  exchange x (n, peer) =
      let r = handle_read M H n x.now (command x.write) in (r.node, deliver x.later r.sent peer)

  abbrev pub exchange_all : List Exchange → Node M × Node M → Node M × Node M
  exchange_all [] c = c
  exchange_all (x ∷ xs) c = exchange_all xs (exchange x c)

  -- What the stores of both nodes become.
  abbrev written : Write → ℕ → Shared M → Shared M
  written (puts key value) now s = (set H M s key value now).0
  written (removes key) now s = (del H M s key now).0

  abbrev after_reply : ℕ → Node M → Reply M → Node M × Node M
  after_reply later peer r = (r.node, deliver later r.sent peer)

  deliver-propagate_update :
      (n peer : Node M) (later : ℕ) (message : Bytes)
      → has_peer n.peer_host n.peer_port ≡ true
      → deliver later (propagate_update M n message) peer
        ≡ (handle_read M H peer later message).node
  unfolding propagate_update
  deliver-propagate_update n peer later message reachable = rw reachable refl

  exchange_writes :
      (w : Write) (now later : ℕ) (n peer : Node M)
      → IsOfWords w
      → IsHeld M w now
      → has_peer n.peer_host n.peer_port ≡ true
      → exchange (record { write = w; now = now; later = later }) (n, peer) ≡ (
        record n { shared = written w now n.shared },
        record peer { shared = written w later peer.shared },
      )
  exchange_writes (puts key value) now later n peer (k, v) fits reachable =
      let n' : Node M = record n { shared = (set H M n.shared key value now).0 } in
      ap (λ (c : Bytes). after_reply later peer (process_command M H n now c))
        (take_set M key value now fits)
      ∙ ap (after_reply later peer) (client_set M H n now key value k v)
      ∙ ap (λ (q : Node M). let c : Node M × Node M = (n', q) in c)
          (deliver-propagate_update n peer later (propagated M (codes "SET") key value now)
              reachable
            ∙ ap (λ (c : Bytes). (process_command M H peer later c).node)
                (take-propagated M (codes "SET") key value now fits)
            ∙ ap (λ (r : Reply M). r.node) (receive_set M H peer later key value now k v))
  exchange_writes (removes key) now later n peer k fits reachable =
      let n' : Node M = record n { shared = (del H M n.shared key now).0 } in
      ap (λ (c : Bytes). after_reply later peer (process_command M H n now c))
        (take_command M (codes "DEL") key [] now refl fits (codes "DEL ") refl)
      ∙ ap (after_reply later peer) (client_del M H n now key k)
      ∙ ap (λ (q : Node M). let c : Node M × Node M = (n', q) in c)
          (deliver-propagate_update n peer later (propagated M (codes "DEL") key [] now) reachable
            ∙ ap (λ (c : Bytes). (process_command M H peer later c).node)
                (take-propagated M (codes "DEL") key [] now fits)
            ∙ ap (λ (r : Reply M). r.node) (receive_del M H peer later key now k))

  -- The value of a key behind a write.
  abbrev value_after : Write → Bytes → Bytes → Bytes
  value_after (puts key value) j old = if j == key then value else old
  value_after (removes key) j old = if j == key then [] else old

  get-written :
      (limit : ℕ) (w : Write) (now : ℕ) (s : Shared M) (j : Bytes)
      → limit ≤ now
      → IsTimely M H limit s
      → get (written w now s).kv j ≡ value_after w j (get s.kv j)
  unfolding get
  get-written limit (puts key value) now s j le h =
      ground (
        arith,
        find-set H M s key value now j h.distinct,
        IsTimely-may_set M H limit s key now le h,
      )
  get-written limit (removes key) now s j le h = elim (Option-cases (find key s.kv.store)) [
    | inl e ↦ ground (arith, find-del H M s key now j h.distinct, e)
    | inr (v, e) ↦ ground (arith, find-del H M s key now j h.distinct, e, h.early key v e, le)
  ]

  -- Both nodes are up to date, and give the same value for every key.
  record IsAgreed (limit : ℕ) (n peer : Node M) : Type 0 where
    ahead : IsUpToDate M H limit n
    behind : IsUpToDate M H limit peer
    same : (j : Bytes) → get n.shared.kv j ≡ get peer.shared.kv j

  pub later-IsTimely :
      (limit now : ℕ) (s : Shared M) → limit ≤ now → IsTimely M H limit s → IsTimely M H now s
  later-IsTimely limit now s le h = record {
    distinct = h.distinct;
    early = λ j v e. omega (arith, h.early j v e, le);
  }

  written-IsTimely :
      (limit now : ℕ) (w : Write) (at : ℕ) (s : Shared M)
      → limit ≤ now
      → at ≤ now
      → IsTimely M H limit s
      → IsTimely M H now (written w at s)
  written-IsTimely limit now (puts key value) at s le le' h =
      set-IsTimely M H now s key value at le' (later-IsTimely limit now s le h)
  written-IsTimely limit now (removes key) at s le le' h =
      del-IsTimely M H now s key at (later-IsTimely limit now s le h)

  exchange-IsAgreed :
      (limit : ℕ) (w : Write) (now later : ℕ) (n peer : Node M)
      → limit ≤ now
      → now ≤ later
      → IsAgreed limit n peer
      → IsAgreed later
          (record n { shared = written w now n.shared })
          (record peer { shared = written w later peer.shared })
  exchange-IsAgreed limit w now later n peer le le' h = record {
    ahead = record {
      timely = written-IsTimely limit later w now n.shared (omega arith) le' h.ahead.timely;
      reachable = h.ahead.reachable;
    };
    behind = record {
      timely =
          written-IsTimely limit later w later peer.shared (omega arith) (omega arith)
            h.behind.timely;
      reachable = h.behind.reachable;
    };
    same = λ j.
        get-written limit w now n.shared j le h.ahead.timely
        ∙ ap (value_after w j) (h.same j)
        ∙ sym (get-written limit w later peer.shared j (omega arith) h.behind.timely);
  }

  exchange_all-same :
      (limit : ℕ) (xs : List Exchange) (n peer : Node M)
      → IsInOrder M limit xs
      → IsAgreed limit n peer
      → (j : Bytes)
      → get (exchange_all xs (n, peer)).0.shared.kv j
        ≡ get (exchange_all xs (n, peer)).1.shared.kv j
  exchange_all-same limit [] n peer order h j = h.same j
  exchange_all-same limit (x ∷ xs) n peer (words, held, le, le', order) h j =
      let Same : Node M × Node M → Type 0 =
        λ c. get (exchange_all xs c).0.shared.kv j ≡ get (exchange_all xs c).1.shared.kv j in
      subst Same (sym (exchange_writes x.write x.now x.later n peer words held h.ahead.reachable)) (
        exchange_all-same x.later xs _ _ order
          (exchange-IsAgreed limit x.write x.now x.later n peer le le' h) j)

  -- From a cluster that is reached while no clock showed more than a limit, and whose nodes give the
  -- same value for every key: however many SETs and DELs of words come to one node, each delivered
  -- to the other before the next comes, with clocks that show no earlier time than before, the nodes
  -- give the same value for every key again. The 1024 bytes of a session's buffer hold each message.
  pub Reach-agree :
      (limit n : ℕ) (a b : End M) (r : Reach M H n (a, b))
      → Before M H limit r
      → ((j : Bytes) → get a.node.shared.kv j ≡ get b.node.shared.kv j)
      → (xs : List Exchange) → IsInOrder M limit xs
      → (j : Bytes)
      → let c = exchange_all xs (a.node, b.node) in get c.0.shared.kv j ≡ get c.1.shared.kv j
  Reach-agree limit n a b r before same xs order =
      let (p, q) = Reach-IsUpToDate M H limit n (a, b) r before in
      exchange_all-same limit xs a.node b.node order (record { ahead = p; behind = q; same = same })
