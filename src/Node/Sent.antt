-- ===== src/Node/Sent.antt =====
-- What a node sends to its peer: at most one message a command, and none for a message of its peer.
use distributed_kvstore.Prelude.{
  ℕ, ◌≡◌, refl, Bool, true, false, List, [], ◌∷◌, Bytes, codes, if◌then◌else◌, arith, ap,
  Bool-cases, ◌⊎◌, inl, inr, take, take-append, ◌∙◌, ◌++◌,
}
use distributed_kvstore.Text.{◌==◌}
use distributed_kvstore.Text.Words.{extract, is_space}
use distributed_kvstore.Text.Words.Reading.{extract-append}
use distributed_kvstore.Dict.{HashOrder}
use distributed_kvstore.Merkle.{Merkle}
use distributed_kvstore.Node.{
  Node, Reply, answer, has_peer, set_command, del_command, dispatch, read_operands, process_command,
  propagate_update, propagated,
}
use distributed_kvstore.Node.Cases
use distributed_kvstore.Node.Reading.{propagate-IsWord}

-- The text begins with the word that marks a message of the peer.
abbrev pub IsMessage : Bytes → Type 0
IsMessage s = (rest : Bytes) × (s ≡ codes "PROPAGATE " ++ rest)

-- What a buffer holds of a message is one, too.
pub take-IsMessage : (s : Bytes) → IsMessage s → IsMessage (take 1024 s)
take-IsMessage s (rest, e) = (
  take 1014 rest,
  ap (take 1024) e ∙ take-append (codes "PROPAGATE ") rest 1024 1014 (omega arith),
)

first_word-IsMessage : (s : Bytes) → IsMessage s → (extract s).0 ≡ codes "PROPAGATE"
unfolding is_space
first_word-IsMessage s (rest, e) =
    ap (λ (t : Bytes). (extract t).0) e
    ∙ ap (λ r. r.0) (extract-append (codes "PROPAGATE") (32 ∷ rest) propagate-IsWord refl)

-- Nothing, or one message.
abbrev pub IsQuiet : List Bytes → Type 0
IsQuiet sent = (sent ≡ []) ⊎ ((message : Bytes) × (sent ≡ message ∷ []) × IsMessage message)

module _ (M : Merkle) (H : HashOrder) (n : Node M) (now : ℕ) where
  -- A property of the reply holds if it does on every branch of the dispatch.
  pub dispatch-cases :
      (P : Reply M → Type 0) (is_propagated : Bool) (action key value rest : Bytes)
      → ((s : Bytes) → P (answer M n s))
      → P (set_command M H n now is_propagated key value)
      → P (del_command M H n now is_propagated key value)
      → P (dispatch M H n now is_propagated action key value rest)
  dispatch-cases P is_propagated action key value rest h hs hd =
      Cases.dispatch-cases M H n now (λ q. P) is_propagated action key value rest (h _) hs hd h
        (h _)

  propagate_update-IsQuiet :
      (n' : Node M) (is_propagated : Bool) (verb key value : Bytes)
      → IsQuiet
          (if is_propagated then [] else propagate_update M n' (propagated M verb key value now))
  unfolding propagate_update is_space
  propagate_update-IsQuiet n' true verb key value = inl refl
  propagate_update-IsQuiet n' false verb key value =
      elim (Bool-cases (has_peer n'.peer_host n'.peer_port)) [
        | inl e ↦ rw e (inr (propagated M verb key value now, refl, (_, refl)))
        | inr e ↦ rw e (inl refl)
      ]

  dispatch-IsQuiet :
      (is_propagated : Bool) (action key value rest : Bytes)
      → IsQuiet (dispatch M H n now is_propagated action key value rest).sent
  dispatch-IsQuiet is_propagated action key value rest =
      dispatch-cases (λ r. IsQuiet r.sent) is_propagated action key value rest (λ s. inl refl)
        (propagate_update-IsQuiet _ is_propagated (codes "SET") key value)
        (propagate_update-IsQuiet _ is_propagated (codes "DEL") key value)

  pub process_command-IsQuiet : (command : Bytes) → IsQuiet (process_command M H n now command).sent
  unfolding process_command read_operands
  process_command-IsQuiet command = elim (Bool-cases ((extract command).0 == codes "PROPAGATE")) [
    | inl e ↦ rw e (dispatch-IsQuiet true _ _ _ _)
    | inr e ↦ rw e (dispatch-IsQuiet false _ _ _ _)
  ]

  -- A node sends nothing on of what its peer propagates.
  pub process_command-IsMessage :
      (command : Bytes) → IsMessage command → (process_command M H n now command).sent ≡ []
  unfolding process_command read_operands
  process_command-IsMessage command first =
      elim (Bool-cases ((extract command).0 == codes "PROPAGATE")) [
        | inl e ↦ rw e (dispatch-cases (λ r. r.sent ≡ []) true _ _ _ _ (λ s. refl) refl refl)
        | inr e ↦ absurd (ground (arith, e, first_word-IsMessage command first))
      ]
