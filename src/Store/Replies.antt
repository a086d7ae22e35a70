-- ===== src/Store/Replies.antt =====
-- The replies of `KeyValueStore::process_command`, on every branch of the three commands with a key.
use distributed_kvstore.Prelude.{
  ℕ, Bool, ◌≡◌, refl, ap, ◌∙◌, [], ◌∷◌, ◌++◌, Bytes, codes, if◌then◌else◌,
}
use distributed_kvstore.Text.{bytes_dec}
use distributed_kvstore.Text.Words.{is_space, IsWord}
use distributed_kvstore.Text.Words.Reading.{
  set-IsWord, del-IsWord, get-IsWord, extract-append, extract_next, extract_last, extract-nil,
}
use distributed_kvstore.Dict.{HashOrder, find}
use distributed_kvstore.Merkle.{Merkle}
use distributed_kvstore.Store.{Shared, get, set, del, may_set, may_del, dispatch, process_command}
use distributed_kvstore.Store.Effects.{set-result, del-result}

module _ (H : HashOrder) (M : Merkle) (s : Shared M) (now : ℕ) where
  words_two :
      (action key : Bytes)
      → IsWord action
      → IsWord key
      → process_command H M s now (action ++ 32 ∷ key) ≡ dispatch H M s now action key []
  unfolding process_command is_space
  words_two action key a k =
      rw (extract-append action (32 ∷ key) a refl, extract_last key k, extract-nil) refl

  words_three :
      (action key value : Bytes)
      → IsWord action
      → IsWord key
      → IsWord value
      → process_command H M s now (action ++ 32 ∷ (key ++ 32 ∷ value))
        ≡ dispatch H M s now action key value
  unfolding process_command is_space
  words_three action key value a k v =
      rw
        (
          extract-append action (32 ∷ (key ++ 32 ∷ value)) a refl,
          extract_next key (32 ∷ value) k refl,
          extract_last value v,
        )
        refl

  abbrev pub set_answer : Bool → Bytes
  set_answer accepted = if accepted then codes "OK" else codes "ERROR: Outdated timestamp"

  abbrev pub del_answer : Bool → Bytes
  del_answer accepted =
      if accepted then codes "OK" else codes "ERROR: Key not found or outdated timestamp"

  dispatch-set :
      (key value : Bytes)
      → dispatch H M s now (codes "SET") key value
        ≡ ((set H M s key value now).0, set_answer (may_set (find key s.kv.store) now))
  unfolding dispatch bytes_dec
  dispatch-set key value =
      ap (λ (b : Bool). ((set H M s key value now).0, set_answer b))
        (set-result H M s key value now)

  dispatch-del :
      (key : Bytes)
      → dispatch H M s now (codes "DEL") key []
        ≡ ((del H M s key now).0, del_answer (may_del (find key s.kv.store) now))
  unfolding dispatch bytes_dec
  dispatch-del key =
      ap (λ (b : Bool). ((del H M s key now).0, del_answer b)) (del-result H M s key now)

  dispatch-get : (key : Bytes) → dispatch H M s now (codes "GET") key [] ≡ (s, get s.kv key)
  unfolding dispatch bytes_dec
  dispatch-get key = refl

  -- The store's own commands of words: SET and DEL make the call at the clock's time, and their
  -- replies tell whether it was accepted; GET answers the value and changes nothing.
  pub process_command-replies :
      (key value : Bytes)
      → IsWord key
      → IsWord value
      → (process_command H M s now (codes "SET " ++ (key ++ 32 ∷ value))
          ≡ ((set H M s key value now).0, set_answer (may_set (find key s.kv.store) now)))
        × (process_command H M s now (codes "DEL " ++ key)
            ≡ ((del H M s key now).0, del_answer (may_del (find key s.kv.store) now)))
        × (process_command H M s now (codes "GET " ++ key) ≡ (s, get s.kv key))
  process_command-replies key value k v = (
    words_three (codes "SET") key value set-IsWord k v ∙ dispatch-set key value,
    words_two (codes "DEL") key del-IsWord k ∙ dispatch-del key,
    words_two (codes "GET") key get-IsWord k ∙ dispatch-get key,
  )
