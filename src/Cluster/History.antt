-- ===== src/Cluster/History.antt =====
-- The two nodes as servers of registers: what each has handled and what its manager has stored decides
-- what it answers.
use mathlib.Core.Path.{fun_ext, subst}
use distributed_kvstore.Prelude.{
  ℕ, ◌≡◌, refl, sym, ap, ◌∙◌, none, List, [], ◌∷◌, ◌++◌, Bytes, inl, inr, take,
}
use distributed_kvstore.Dict.{HashOrder, NodupKeys, find}
use distributed_kvstore.Merkle.{Merkle}
use distributed_kvstore.Store.{Shared, set_merkle_index}
use distributed_kvstore.Store.Updates.{
  Registers, Update, puts, register_step, register_run, view, view-apply,
}
use distributed_kvstore.Node.{
  Node, AntiEntropyManager, process_command, new_node, start_anti_entropy,
}
use distributed_kvstore.Node.Main.{node1, node2}
use distributed_kvstore.Node.Contract.{
  Request, reads, updates, inspects, unknown, changes, request, answer, Allows,
}
use distributed_kvstore.Node.Refinement.{process_command-IsAnswer}
use distributed_kvstore.Io.{World}
use distributed_kvstore.AntiEntropy.Steps.{
  Phase, beginning, rooted, connected, unequal, listed, answered, updating, taking, finished, step,
}
use distributed_kvstore.AntiEntropy.Steps.Keeping.{Reads, Phase-cases, step-reading, step-taking}
use distributed_kvstore.Cluster.{
  End, Cluster, handle, advance, Reach, started, swapped, commanded, delivered, failed, gave_up,
  synchronised, slept,
}
use distributed_kvstore.Cluster.Invariants.{Reach-IsRunning}

-- What a step of the manager's thread stores.
abbrev pub stored : Phase → ℕ → List Update
stored (taking key value keys) now = puts key (record { value = value; timestamp = now }) ∷ []
stored _ now = []

register_run-append :
    (r : Registers) (us vs : List Update)
    → register_run r (us ++ vs) ≡ register_run (register_run r us) vs
unfolding register_run
register_run-append r [] vs = refl
register_run-append r (u ∷ us) vs = register_run-append (register_step r u) us vs

answer-changes :
    (r : Registers) (now : ℕ) (q : Request) → (answer r now q).0 ≡ register_run r (changes now q)
unfolding register_run
answer-changes r now (reads key) = refl
answer-changes r now (updates u) = refl
answer-changes r now inspects = refl
answer-changes r now unknown = refl

abbrev pub no_registers : Registers
no_registers key = none

module _ (M : Merkle) (H : HashOrder) where
  -- The updates of both nodes, in the order in which they happened to each.
  abbrev pub history : {n : ℕ} {c : Cluster M} → Reach M H n c → List Update × List Update
  history started = ([], [])
  history (swapped a b r) = ((history r).1, (history r).0)
  history (commanded c now command r) =
      ((history r).0 ++ changes now (request (take 1024 command)), (history r).1)
  history (delivered a b now before after t e left r) =
      ((history r).0 ++ changes now (request (take 1024 t.message)), (history r).1)
  history (failed a b before after t e left r) = history r
  history (gave_up a b before after t e spent r) = history r
  history (synchronised a b W w manager e r) =
      ((history r).0 ++ stored a.phase (W.clock w), (history r).1)
  history (slept a b result e r) = history r

  -- The node holds what the registers hold after the updates.
  abbrev Holds : Node M → List Update → Type 0
  Holds n us = view n.shared ≡ register_run no_registers us

  process_command-Holds :
      (n : Node M) (now : ℕ) (command : Bytes) (us : List Update)
      → NodupKeys n.shared.kv.store
      → Holds n us
      → Holds (process_command M H n now command).node (us ++ changes now (request command))
  process_command-Holds n now command us d h =
      (process_command-IsAnswer M H n now d command).registers
      ∙ answer-changes (view n.shared) now (request command)
      ∙ ap (λ (r : Registers). register_run r (changes now (request command))) h
      ∙ sym (register_run-append no_registers us (changes now (request command)))

  -- A step that stores nothing, or the one that does.
  stored_nothing : (phase : Phase) (now : ℕ) → Reads phase → stored phase now ≡ []
  stored_nothing beginning now h = refl
  stored_nothing (rooted p root) now h = refl
  stored_nothing (connected p root) now h = refl
  stored_nothing (unequal p) now h = refl
  stored_nothing (listed p s) now h = refl
  stored_nothing (answered p s) now h = refl
  stored_nothing (updating keys) now h = refl
  stored_nothing (taking key value keys) now h = absurd h
  stored_nothing (finished r) now h = refl

  step-stored :
      (W : World) (manager : AntiEntropyManager) (phase : Phase) (s : Shared M × W.State)
      → NodupKeys s.0.kv.store
      → view (step M H W manager (phase, s)).1.0
        ≡ register_run (view s.0) (stored phase (W.clock s.1))
  unfolding register_run
  step-stored W manager phase s d = elim (Phase-cases phase) [
    | inl h ↦
        rw (stored_nothing phase (W.clock s.1) h) (ap view (step-reading M H W manager phase s h))
    | inr (key, value, keys, e) ↦ rw e (
        ap view (step-taking M H W manager key value keys s)
        ∙ fun_ext (λ j.
          view-apply H M s.0 (puts key (record { value = value; timestamp = W.clock s.1 })) j d))
  ]

  advance-Holds :
      (W : World) (manager : AntiEntropyManager) (a : End M) (w : W.State) (us : List Update)
      → NodupKeys a.node.shared.kv.store
      → Holds a.node us
      → Holds (advance M H W manager a w).0.node (us ++ stored a.phase (W.clock w))
  unfolding advance
  advance-Holds W manager a w us d h =
      step-stored W manager a.phase (a.node.shared, w) d
      ∙ ap (λ (r : Registers). register_run r (stored a.phase (W.clock w))) h
      ∙ sym (register_run-append no_registers us (stored a.phase (W.clock w)))

  pub Reach-Holds :
      (n : ℕ) (c : Cluster M) (r : Reach M H n c)
      → Holds c.0.node (history r).0 × Holds c.1.node (history r).1
  unfolding handle node1 node2 new_node start_anti_entropy set_merkle_index find register_run
  Reach-Holds n c started = (refl, refl)
  Reach-Holds n c (swapped a b r) = let (p, q) = Reach-Holds n (a, b) r in (q, p)
  Reach-Holds n c (commanded {n = m} (a, b) now command r) =
      let (p, q) = Reach-Holds m (a, b) r in
      let d = (Reach-IsRunning M H m (a, b) r).0.distinct in
      (process_command-Holds a.node now (take 1024 command) (history r).0 d p, q)
  Reach-Holds n c (delivered a b now before after t e left r) =
      let (p, q) = Reach-Holds n (a, b) r in
      let d = (Reach-IsRunning M H n (a, b) r).0.distinct in
      (process_command-Holds a.node now (take 1024 t.message) (history r).0 d p, q)
  Reach-Holds n c (failed a b before after t e left r) = Reach-Holds n (a, b) r
  Reach-Holds n c (gave_up a b before after t e spent r) = Reach-Holds n (a, b) r
  Reach-Holds n c (synchronised a b W w manager e r) =
      let (p, q) = Reach-Holds n (a, b) r in
      let d = (Reach-IsRunning M H n (a, b) r).0.distinct in
      (advance-Holds W manager a w (history r).0 d p, q)
  Reach-Holds n c (slept a b result e r) = Reach-Holds n (a, b) r

  -- In every cluster that is reached, a node's store is that of last-writer-wins registers after what
  -- it has handled, commands of clients and messages of its peer, and what its manager has stored, in
  -- the order in which this happened; and to any command it gives the response that the registers
  -- give, if they give one.
  pub Reach-answers :
      (n : ℕ) (a b : End M) (r : Reach M H n (a, b)) (now : ℕ) (command : Bytes)
      → let registers = register_run no_registers (history r).0 in
        (view a.node.shared ≡ registers)
        × Allows
            (answer registers now (request command)).1
            (process_command M H a.node now command).response
  Reach-answers n a b r now command =
      let held = (Reach-Holds n (a, b) r).0 in
      let d = (Reach-IsRunning M H n (a, b) r).0.distinct in
      let Allowed : Registers → Type 0 = λ x.
        Allows (answer x now (request command)).1
          (process_command M H a.node now command).response in
      (held, subst Allowed held (process_command-IsAnswer M H a.node now d command).response)
