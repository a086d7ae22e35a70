-- ===== src/Session/OneRequest.antt =====
-- A session answers one request, and a run of anti-entropy that has to synchronise makes several.
use distributed_kvstore.Prelude.{
  ℕ, zero, suc, ◌≡◌, refl, ◌∙◌, true, false, Bytes, codes, Result, ok, err, system_error,
  if◌then◌else◌, arith, Bool-cases, inl, inr, Option-cases,
}
use distributed_kvstore.Text.{◌==◌}
use distributed_kvstore.Dict.{HashOrder}
use distributed_kvstore.Merkle.{Merkle}
use distributed_kvstore.MerkleIndex.{get_root_hash}
use distributed_kvstore.Store.{Shared}
use distributed_kvstore.Node.{AntiEntropyManager, deref}
use distributed_kvstore.Io.{after, pure}
use distributed_kvstore.AntiEntropy.{synchronise, run_with_index, run_anti_entropy, start_rounds}
use distributed_kvstore.Session.{Link, Server, start_session, session_exchange, session_world}

module _ (M : Merkle) (H : HashOrder) (l : Link) where
  -- Behind its request a connection is closed.
  serve_closes :
      (n : ℕ) (v : Server M) (request : Bytes)
      → (session_exchange M H l n v request).1.waiting ≡ false
  unfolding session_exchange
  serve_closes n v request = ground arith

  synchronise_closed :
      (p : ℕ) (s : Shared M) (v : Server M)
      → v.waiting ≡ false
      → synchronise M H (session_world M H l) p (s, v) ≡ (err system_error, (s, v))
  unfolding synchronise session_exchange
  synchronise_closed p s v h = rw h refl

  compare_closed :
      (p : ℕ) (s : Shared M) (r : Result Bytes) (v : Server M) (root : Bytes)
      → v.waiting ≡ false
      → (after
          (r, (s, v))
          (λ peer_root.
            if peer_root == root then pure tt else synchronise M H (session_world M H l) p)).1.0
        ≡ s
  compare_closed p s (err e) v root h = refl
  compare_closed p s (ok peer_root) v root h = elim (Bool-cases (peer_root == root)) [
    | inl e ↦ rw e refl
    | inr e ↦ rw (e, synchronise_closed p s v h) refl
  ]

  run_with_index-same :
      (p : ℕ) (s : Shared M) (v : Server M)
      → (run_with_index M H (session_world M H l) p (s, v)).1.0 ≡ s
  unfolding run_with_index start_session
  run_with_index-same p s v = elim (Bool-cases (l.accepts v.time)) [
    | inl e ↦ rw e (
        compare_closed p s _ _ (M.hash_string (get_root_hash M (deref M s.memory p)))
          (serve_closes 4096 (record v { waiting = true }) (codes "GET_MERKLE_ROOT")))
    | inr e ↦ rw e refl
  ]

  run-same :
      (manager : AntiEntropyManager) (s : Shared M) (v : Server M)
      → (run_anti_entropy M H (session_world M H l) manager (s, v)).1.0 ≡ s
  unfolding run_anti_entropy
  run-same manager s v = elim (Option-cases manager.merkle_index) [
    | inl e ↦ rw e refl
    | inr (p, e) ↦ rw e (run_with_index-same p s v)
  ]

  -- Against a node that serves its connections by sessions, no number of rounds of anti-entropy
  -- changes the store or its index, whatever the two nodes hold.
  pub rounds-same :
      (rounds : ℕ) (manager : AntiEntropyManager) (s : Shared M) (v : Server M)
      → (start_rounds M H (session_world M H l) rounds manager (s, v)).1.0 ≡ s
  unfolding start_rounds
  rounds-same zero manager s v = refl
  rounds-same (suc rounds) manager s v =
      let next = (run_anti_entropy M H (session_world M H l) manager (s, v)).1 in
      rounds-same rounds manager next.0 next.1 ∙ run-same manager s v
