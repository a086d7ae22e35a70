-- ===== src/Node/Cases.antt =====
-- The handler's branches, by what the contract makes of the command.
use distributed_kvstore.Prelude.{ℕ, true, false, Bool, Bytes, codes, Bool-cases, inl, inr}
use distributed_kvstore.Text.{◌==◌}
use distributed_kvstore.Text.Words.{extract}
use distributed_kvstore.Text.Words.Split.{
  words, first_word, other_words, first_word-words, other_words-words,
}
use distributed_kvstore.Dict.{HashOrder}
use distributed_kvstore.Merkle.{Merkle}
use distributed_kvstore.Store.{get}
use distributed_kvstore.Store.Updates.{puts, removes}
use distributed_kvstore.Node.{
  Node, Reply, answer, set_command, del_command, dispatch, read_operands, process_command,
}
use distributed_kvstore.Node.Contract.{
  Request, reads, updates, inspects, unknown, request_of, request,
}

module _ (M : Merkle) (H : HashOrder) (n : Node M) (now : ℕ) where
  pub dispatch-cases :
      (P : Request → Reply M → Type 0) (b : Bool) (action key value rest : Bytes)
      → P (reads key) (answer M n (get n.shared.kv key))
      → P
          (updates (λ t. puts key (record { value = value; timestamp = t })))
          (set_command M H n now b key value)
      → P (updates (λ t. removes key t)) (del_command M H n now b key value)
      → ((s : Bytes) → P inspects (answer M n s))
      → P unknown (answer M n (codes "Invalid command"))
      → P (request_of action key value) (dispatch M H n now b action key value rest)
  unfolding dispatch
  dispatch-cases P b action key value rest h_get h_set h_del h_inspect h_unknown =
      elim (Bool-cases (action == codes "GET")) [
        | inl e ↦ rw e h_get
        | inr e₁ ↦ rw e₁ (elim (Bool-cases (action == codes "SET")) [
          | inl e ↦ rw e h_set
          | inr e₂ ↦ rw e₂ (elim (Bool-cases (action == codes "DEL")) [
            | inl e ↦ rw e h_del
            | inr e₃ ↦ rw e₃ (elim (Bool-cases (action == codes "GET_ALL")) [
              | inl e ↦ rw e (h_inspect _)
              | inr e₄ ↦ rw e₄ (elim (Bool-cases (action == codes "GET_MERKLE_ROOT")) [
                | inl e ↦ rw e (h_inspect _)
                | inr e₅ ↦ rw e₅ (elim (Bool-cases (action == codes "GET_PATHS")) [
                  | inl e ↦ rw e (h_inspect _)
                  | inr e₆ ↦ rw e₆ h_unknown
                ])
              ])
            ])
          ])
        ])
      ]

module _ (M : Merkle) (H : HashOrder) (n : Node M) (now : ℕ) (P : Request → Reply M → Type 0)
    (h_get : (key : Bytes) → P (reads key) (answer M n (get n.shared.kv key)))
    (h_set : (b : Bool) (key value : Bytes)
      → P
          (updates (λ t. puts key (record { value = value; timestamp = t })))
          (set_command M H n now b key value))
    (h_del : (b : Bool) (key value : Bytes)
      → P (updates (λ t. removes key t)) (del_command M H n now b key value))
    (h_inspect : (s : Bytes) → P inspects (answer M n s))
    (h_unknown : P unknown (answer M n (codes "Invalid command"))) where
  read_operands-branches :
      (b : Bool) (action s : Bytes)
      → P
          (request_of action (first_word (words s)) (first_word (other_words (words s))))
          (read_operands M H n now b action s)
  unfolding read_operands
  read_operands-branches b action s =
      rw (first_word-words s, other_words-words s, first_word-words (extract s).1)
        (dispatch-cases M H n now P b action _ _ _ (h_get _) (h_set b _ _) (h_del b _ _) h_inspect
          h_unknown)

  -- A relation of requests and replies holds if it does on every branch of the handler.
  pub process_command-cases :
      (command : Bytes) → P (request command) (process_command M H n now command)
  unfolding process_command
  process_command-cases command =
      let s = (extract command).1 in
      rw (first_word-words command, other_words-words command)
        (elim (Bool-cases ((extract command).0 == codes "PROPAGATE")) [
          | inl e ↦
              rw (e, first_word-words s, other_words-words s)
                (read_operands-branches true (extract s).0 (extract s).1)
          | inr e ↦ rw e (read_operands-branches false (extract command).0 s)
        ])
