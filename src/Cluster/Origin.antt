-- ===== src/Cluster/Origin.antt =====
-- Where the values of both nodes come from.
use mathlib.Core.Path.{subst}
use mathlib.Core.List.{Memᴰ}
use distributed_kvstore.Prelude.{
  ℕ, ◌≡◌, sym, ap, ◌∙◌, some, inl, inr, List, [], ◌++◌, Bytes, All, All-append, All-middle,
  All-replace, take,
}
use distributed_kvstore.Membership.{All-Memᴰ, All-map}
use distributed_kvstore.Dict.{HashOrder, find}
use distributed_kvstore.Merkle.{Merkle}
use distributed_kvstore.Store.{ValueWithTimestamp}
use distributed_kvstore.Store.Updates.{Update, puts}
use distributed_kvstore.Store.Updates.Latest.{run_written}
use distributed_kvstore.Node.Contract.{changes, request}
use distributed_kvstore.Node.Messages.{process_command-TellsOf, changes-told}
use distributed_kvstore.Node.Sent.{process_command-IsMessage, take-IsMessage}
use distributed_kvstore.Cluster.{
  Thread, End, Cluster, handle, advance, Reach, started, swapped, commanded, delivered, failed,
  gave_up, synchronised, slept,
}
use distributed_kvstore.Cluster.Threads.{IsMarked, Reach-IsBounded}
use distributed_kvstore.Cluster.History.{history, stored, no_registers, Reach-Holds}
use distributed_kvstore.Cluster.Sources.{
  sources, IsWorded, HasSource, Carries, later-HasSource, new-HasSource, retimed-HasSource,
  later-Carries, new-Carries,
}

module _ (M : Merkle) (H : HashOrder) where
  record IsSourced (ss : List Update) (us : List Update × List Update) (c : Cluster M)
      : Type 0 where
    first : All (HasSource ss) us.0
    second : All (HasSource ss) us.1
    first_threads : All (Carries M ss) c.0.threads
    second_threads : All (Carries M ss) c.1.threads

  grown : (ss vs us : List Update) → All (HasSource ss) us → All (HasSource (ss ++ vs)) us
  grown ss vs us = All-map (HasSource ss) (HasSource (ss ++ vs)) us (later-HasSource ss vs)

  -- Something from outside is done at the first end.
  entered : (ss vs us : List Update) → All (HasSource ss) us → All (HasSource (ss ++ vs)) (us ++ vs)
  entered ss vs us h =
      All-append (HasSource (ss ++ vs)) us vs (grown ss vs us h) (new-HasSource ss vs)

  delivered-HasSource :
      (ss us : List Update) (now : ℕ) (t : Thread)
      → All (HasSource ss) us
      → Carries M ss t
      → All (HasSource ss) (us ++ changes now (request (take 1024 t.message)))
  delivered-HasSource ss us now t h (u, m, w, e) =
      All-append (HasSource ss) us _ h
        (rw (changes-told M now u t.message w e) (retimed-HasSource M ss now u m, tt))

  Reach-IsSourced :
      (n : ℕ) (c : Cluster M) (r : Reach M H n c)
      → IsWorded M H r
      → IsSourced (sources M H r) (history M H r) c
  unfolding handle advance
  Reach-IsSourced n c started w = record {
    first = tt;
    second = tt;
    first_threads = tt;
    second_threads = tt;
  }
  Reach-IsSourced n c (swapped a b r) w =
      let i = Reach-IsSourced n (a, b) r w in
      record {
        first = i.second;
        second = i.first;
        first_threads = i.second_threads;
        second_threads = i.first_threads;
      }
  Reach-IsSourced n c (commanded {n = m} (a, b) now command r) (whole, w) =
      let i = Reach-IsSourced m (a, b) r w in
      let vs = changes now (request (take 1024 command)) in
      let ss = sources M H r in
      record {
        first = entered ss vs _ i.first;
        second = grown ss vs _ i.second;
        first_threads =
            All-append (Carries M (ss ++ vs)) a.threads _
              (later-Carries M ss vs a.threads i.first_threads)
              (new-Carries M ss vs _ whole
                (process_command-TellsOf M H a.node now (take 1024 command)));
        second_threads = later-Carries M ss vs b.threads i.second_threads;
      }
  Reach-IsSourced n c (delivered a b now before after t e lt r) w =
      let i = Reach-IsSourced n (a, b) r w in
      let ss = sources M H r in
      let (carried, rest) =
        All-middle (Carries M ss) before t after (subst (All (Carries M ss)) e i.second_threads) in
      let marks = (Reach-IsBounded M H n (a, b) r).second_marked in
      let marked = (All-middle IsMarked before t after (subst (All IsMarked) e marks)).0 in
      record {
        first = delivered-HasSource ss _ now t i.first carried;
        second = i.second;
        first_threads =
            rw
              (process_command-IsMessage M H a.node now (take 1024 t.message)
                (take-IsMessage t.message marked))
              (All-append (Carries M ss) a.threads [] i.first_threads tt);
        second_threads = rest;
      }
  Reach-IsSourced n c (failed a b before after t e lt r) w =
      let i = Reach-IsSourced n (a, b) r w in
      let P = Carries M (sources M H r) in
      record {
        first = i.first;
        second = i.second;
        first_threads = i.first_threads;
        second_threads = All-replace P before t _ after (λ h. h) (subst (All P) e i.second_threads);
      }
  Reach-IsSourced n c (gave_up a b before after t e spent r) w =
      let i = Reach-IsSourced n (a, b) r w in
      let P = Carries M (sources M H r) in
      record {
        first = i.first;
        second = i.second;
        first_threads = i.first_threads;
        second_threads = (All-middle P before t after (subst (All P) e i.second_threads)).1;
      }
  Reach-IsSourced n c (synchronised a b W x manager e r) w =
      let i = Reach-IsSourced n (a, b) r w in
      let ss = sources M H r in
      let vs = stored a.phase (W.clock x) in
      record {
        first = entered ss vs _ i.first;
        second = grown ss vs _ i.second;
        first_threads = later-Carries M ss vs a.threads i.first_threads;
        second_threads = later-Carries M ss vs b.threads i.second_threads;
      }
  Reach-IsSourced n c (slept a b result e r) w =
      let i = Reach-IsSourced n (a, b) r w in
      record {
        first = i.first;
        second = i.second;
        first_threads = i.first_threads;
        second_threads = i.second_threads;
      }

  -- No value comes from nowhere: in every cluster that is reached by SETs and DELs that have their
  -- words, and by whatever else, the value that a node has for a key is one that a command from
  -- outside asked to write to the key, at this node or at the other, or that a manager took over for
  -- it. The 1024 bytes of a session's buffer hold the message of each SET, and the keys of the DELs are
  -- shorter than 1010 bytes.
  pub Reach-origin :
      (n : ℕ) (a b : End M) (r : Reach M H n (a, b))
      → IsWorded M H r
      → (key : Bytes) (v : ValueWithTimestamp) → find key a.node.shared.kv.store ≡ some v
      → (w : ValueWithTimestamp) × (w.value ≡ v.value) × Memᴰ (puts key w) (sources M H r)
  Reach-origin n a b r worded key v e =
      let us = (history M H r).0 in
      let held = ap (λ (f : Bytes → _). f key) (Reach-Holds M H n (a, b) r).0 in
      elim (run_written key us no_registers v (sym held ∙ e)) [
        | inl h ↦ cc
        | inr m ↦
            All-Memᴰ (HasSource (sources M H r)) us (puts key v)
              (Reach-IsSourced n (a, b) r worded).first m
      ]
