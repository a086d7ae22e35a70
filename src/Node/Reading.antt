-- ===== src/Node/Reading.antt =====
-- How `Node::process_command` reads a command.
use mathlib.Core.Logic.{if_pos, if_neg}
use distributed_kvstore.Prelude.{
  ℕ, ◌≡◌, ◌≢◌, refl, ◌∙◌, Bool, true, false, [], ◌∷◌, ◌++◌, Bytes, codes, if◌then◌else◌, arith,
}
use distributed_kvstore.Text.{◌==◌, bytes_dec}
use distributed_kvstore.Text.Words.{extract, IsWord, is_space}
use distributed_kvstore.Text.Words.Reading.{
  Stops, extract-append, extract_next, extract_last, extract-blank, extract-nil,
}
use distributed_kvstore.Dict.{HashOrder}
use distributed_kvstore.Merkle.{Merkle}
use distributed_kvstore.Node.{Node, dispatch, read_operands, process_command}

pub propagate-IsWord : IsWord (codes "PROPAGATE")
unfolding is_space
propagate-IsWord = (λ e. cc, ground arith)

module _ (M : Merkle) (H : HashOrder) (n : Node M) (now : ℕ) where
  read_operands-words :
      (is_propagated : Bool) (action key value rest : Bytes)
      → IsWord key
      → IsWord value
      → Stops rest
      → read_operands M H n now is_propagated action (32 ∷ (key ++ 32 ∷ (value ++ rest)))
        ≡ dispatch M H n now is_propagated action key value rest
  unfolding read_operands is_space
  read_operands-words is_propagated action key value rest k v stop =
      rw (extract_next key (32 ∷ (value ++ rest)) k refl, extract_next value rest v stop) refl

  pub process_command-first :
      (first s : Bytes)
      → IsWord first
      → Stops s
      → process_command M H n now (first ++ s) ≡ (
          if first == codes "PROPAGATE"
          then read_operands M H n now true (extract s).0 (extract s).1
          else read_operands M H n now false first s)
  unfolding process_command
  process_command-first first s h stop = rw (extract-append first s h stop) refl

  -- A client's command of three words.
  pub process_command-client :
      (action key value rest : Bytes)
      → IsWord action
      → action ≢ codes "PROPAGATE"
      → IsWord key
      → IsWord value
      → Stops rest
      → process_command M H n now (action ++ 32 ∷ (key ++ 32 ∷ (value ++ rest)))
        ≡ dispatch M H n now false action key value rest
  unfolding is_space
  process_command-client action key value rest a other k v stop =
      process_command-first action _ a refl
      ∙ rw (if_neg (bytes_dec action (codes "PROPAGATE")) other true false)
          (read_operands-words false action key value rest k v stop)

  -- A command of four words or more behind `PROPAGATE`.
  pub process_command-propagated :
      (action key value rest : Bytes)
      → IsWord action
      → IsWord key
      → IsWord value
      → Stops rest
      → process_command M H n now
          (codes "PROPAGATE " ++ (action ++ 32 ∷ (key ++ 32 ∷ (value ++ rest))))
        ≡ dispatch M H n now true action key value rest
  unfolding is_space
  process_command-propagated action key value rest a k v stop =
      let word = codes "PROPAGATE" in
      process_command-first word (32 ∷ (action ++ 32 ∷ (key ++ 32 ∷ (value ++ rest))))
        propagate-IsWord refl
      ∙ rw (if_pos (bytes_dec word word) refl true false) (
          rw (extract_next action (32 ∷ (key ++ 32 ∷ (value ++ rest))) a refl)
            (read_operands-words true action key value rest k v stop))

  -- A client's command of two words: the value is empty.
  pub process_command-two :
      (action key : Bytes)
      → IsWord action
      → action ≢ codes "PROPAGATE"
      → IsWord key
      → process_command M H n now (action ++ 32 ∷ key) ≡ dispatch M H n now false action key [] []
  unfolding is_space read_operands
  process_command-two action key a other k =
      process_command-first action (32 ∷ key) a refl
      ∙ rw (if_neg (bytes_dec action (codes "PROPAGATE")) other true false)
          (rw (extract_last key k, extract-nil) refl)

  -- A propagated command with an empty value: the timestamp is read in its place.
  pub process_command-shifted :
      (action key stamp : Bytes)
      → IsWord action
      → IsWord key
      → IsWord stamp
      → process_command M H n now (codes "PROPAGATE " ++ (action ++ 32 ∷ (key ++ 32 ∷ 32 ∷ stamp)))
        ≡ dispatch M H n now true action key stamp []
  unfolding is_space read_operands
  process_command-shifted action key stamp a k v =
      let word = codes "PROPAGATE" in
      process_command-first word (32 ∷ (action ++ 32 ∷ (key ++ 32 ∷ 32 ∷ stamp))) propagate-IsWord
        refl
      ∙ rw (if_pos (bytes_dec word word) refl true false) (
          rw
            (
              extract_next action (32 ∷ (key ++ 32 ∷ 32 ∷ stamp)) a refl,
              extract_next key (32 ∷ 32 ∷ stamp) k refl,
              extract-blank (32 ∷ stamp),
              extract_last stamp v,
            )
            refl)
