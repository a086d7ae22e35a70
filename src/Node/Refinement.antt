-- ===== src/Node/Refinement.antt =====
-- The node's handler keeps the contract: whatever bytes arrive.
use mathlib.Core.Path.{fun_ext, subst}
use distributed_kvstore.Prelude.{ℕ, ◌≡◌, refl, Option, List, [], ◌∷◌, Bytes, inl, inr, Option-cases}
use distributed_kvstore.Dict.{HashOrder, NodupKeys, find}
use distributed_kvstore.Merkle.{Merkle}
use distributed_kvstore.Store.{get}
use distributed_kvstore.Store.Effects.{set-NodupKeys, del-NodupKeys}
use distributed_kvstore.Store.Updates.{
  Registers, Update, puts, removes, register_step, view, view-apply, apply,
}
use distributed_kvstore.Node.{Node, Reply, process_command}
use distributed_kvstore.Node.Cases.{process_command-cases}
use distributed_kvstore.Node.Running.{process_command-keeps}
use distributed_kvstore.Node.Contract.{request, value_of, answer, answer_all, Allows, AllowsAll}

module _ (M : Merkle) (H : HashOrder) where
  -- A reply gives the registers and, where they decide it, the response.
  pub record IsAnswer (a : Registers × Option Bytes) (r : Reply M) : Type 0 where
    pub registers : view r.node.shared ≡ a.0
    pub response : Allows a.1 r.response

  get-view : (n : Node M) (key : Bytes) → value_of (view n.shared key) ≡ get n.shared.kv key
  unfolding get
  get-view n key = elim (Option-cases (find key n.shared.kv.store)) [
    | inl e ↦ rw e refl
    | inr (v, e) ↦ rw e refl
  ]

  module _ (n : Node M) (now : ℕ) (distinct : NodupKeys n.shared.kv.store) where
    view-update : (u : Update) → view (apply H M n.shared u) ≡ register_step (view n.shared) u
    view-update u = fun_ext (λ j. view-apply H M n.shared u j distinct)

    pub process_command-IsAnswer :
        (command : Bytes)
        → IsAnswer
            (answer (view n.shared) now (request command))
            (process_command M H n now command)
    process_command-IsAnswer =
        process_command-cases M H n now (λ q r. IsAnswer (answer (view n.shared) now q) r)
          (λ key. record { registers = refl; response = get-view n key })
          (λ b key value. record { registers = view-update (puts key _); response = refl })
          (λ b key value. record { registers = view-update (removes key now); response = refl })
          (λ s. record { registers = refl; response = tt })
          (record { registers = refl; response = refl })

  process_command-NodupKeys :
      (n : Node M) (now : ℕ) (command : Bytes)
      → NodupKeys n.shared.kv.store
      → NodupKeys (process_command M H n now command).node.shared.kv.store
  process_command-NodupKeys n now command d =
      process_command-keeps M H (λ x. NodupKeys x.shared.kv.store) n now command d
        (λ key value. set-NodupKeys H M n.shared key value now d)
        (λ key. del-NodupKeys H M n.shared key now d)

  -- A node that handles commands one after the other, and its responses.
  abbrev pub handle_all : Node M → List (ℕ × Bytes) → Node M × List Bytes
  handle_all n [] = (n, [])
  handle_all n ((now, command) ∷ commands) =
      let reply = process_command M H n now command in
      let (n', responses) = handle_all reply.node commands in (n', reply.response ∷ responses)

  pub handle_all-NodupKeys :
      (commands : List (ℕ × Bytes)) (n : Node M)
      → NodupKeys n.shared.kv.store
      → NodupKeys (handle_all n commands).0.shared.kv.store
  handle_all-NodupKeys [] n d = d
  handle_all-NodupKeys ((now, command) ∷ commands) n d =
      handle_all-NodupKeys commands (process_command M H n now command).node
        (process_command-NodupKeys n now command d)

  -- From a table that holds no key twice, whatever commands a node handles, of a client or of its
  -- peer, valid or not: in the end it holds for each key what the registers of the contract hold,
  -- and every response is the one that the contract gives, if it gives one.
  pub handle_all-answers :
      (commands : List (ℕ × Bytes)) (n : Node M)
      → NodupKeys n.shared.kv.store
      → let (n', responses) = handle_all n commands in
        let (registers, allowed) = answer_all (view n.shared) commands in
        (view n'.shared ≡ registers) × AllowsAll allowed responses
  handle_all-answers [] n d = (refl, tt)
  handle_all-answers ((now, command) ∷ commands) n d =
      let reply = process_command M H n now command in
      let first = process_command-IsAnswer n now d command in
      let end = handle_all reply.node commands in
      let Kept : Registers → Type 0 = λ r.
        (view end.0.shared ≡ (answer_all r commands).0)
        × AllowsAll (answer_all r commands).1 end.1 in
      let (registers, responses) =
        subst Kept first.registers
          (handle_all-answers commands reply.node (process_command-NodupKeys n now command d)) in
      (registers, (first.response, responses))
