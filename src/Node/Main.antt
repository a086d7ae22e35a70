-- ===== src/Node/Main.antt =====
-- The programs of node1.cpp and node2.cpp: two nodes on one machine, each the peer of the other, with
-- their anti-entropy started.
use distributed_kvstore.Prelude.{ℕ, codes, Result, ok, err, ◌≡◌, refl, ◌⊎◌, inl, inr}
use distributed_kvstore.Dict.{HashOrder}
use distributed_kvstore.Merkle.{Merkle}
use distributed_kvstore.Node.{Node, new_node, start_anti_entropy}

module _ (M : Merkle) (H : HashOrder) where
  -- On port 5008.
  unfoldable pub node1 : Node M
  node1 = start_anti_entropy M H (new_node M (codes "127.0.0.1") 5009)

  -- On port 5009.
  unfoldable pub node2 : Node M
  node2 = start_anti_entropy M H (new_node M (codes "127.0.0.1") 5008)

  -- What a program does: its event loop serves a node, or it has returned.
  pub data Program : Type 0 where
    serving : Node M → Program
    exited : (status : ℕ) → Program

  -- The constructor of the acceptor binds the port. What it throws is caught and printed, and `main`
  -- returns 0 all the same.
  abbrev started : Result (Unit {0}) → Node M → Program
  started (ok _) n = serving n
  started (err e) n = exited 0

  -- `bind` tells what binding a port gives.
  unfoldable pub program1 : (ℕ → Result (Unit {0})) → Program
  program1 bind = started (bind 5008) node1

  unfoldable pub program2 : (ℕ → Result (Unit {0})) → Program
  program2 bind = started (bind 5009) node2

  -- Each program serves its node where its port is free, and the node is the one that the other
  -- program has as its peer; a program whose port is taken returns 0.
  programs :
      (bind : ℕ → Result (Unit {0}))
      → (((bind 5008 ≡ ok tt) × (program1 bind ≡ serving node1) × (node2.peer_port ≡ 5008))
          ⊎ (program1 bind ≡ exited 0))
        × (((bind 5009 ≡ ok tt) × (program2 bind ≡ serving node2) × (node1.peer_port ≡ 5009))
            ⊎ (program2 bind ≡ exited 0))
  unfolding program1 program2 node1 node2 start_anti_entropy new_node
  programs bind = (of_first (bind 5008) refl, of_second (bind 5009) refl)
    where
      of_first :
          (r : Result (Unit {0}))
          → bind 5008 ≡ r
          → ((bind 5008 ≡ ok tt) × (program1 bind ≡ serving node1) × (node2.peer_port ≡ 5008))
            ⊎ (program1 bind ≡ exited 0)
      of_first (ok _) e = inl (e, rw e refl, refl)
      of_first (err x) e = inr (rw e refl)

      of_second :
          (r : Result (Unit {0}))
          → bind 5009 ≡ r
          → ((bind 5009 ≡ ok tt) × (program2 bind ≡ serving node2) × (node1.peer_port ≡ 5009))
            ⊎ (program2 bind ≡ exited 0)
      of_second (ok _) e = inl (e, rw e refl, refl)
      of_second (err x) e = inr (rw e refl)
