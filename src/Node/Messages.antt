-- ===== src/Node/Messages.antt =====
-- What a node tells its peer of a command.
use distributed_kvstore.Node.Fits.{Fits, take-propagated, take_key}
use distributed_kvstore.Prelude.{
  ℕ, ◌≡◌, refl, Bool, true, false, List, [], ◌∷◌, ◌++◌, Bytes, codes, All, Bool-cases, inl, inr,
  if◌then◌else◌, take, length, ◌<◌, ◌-◌,
}
use distributed_kvstore.Text.{bytes_dec}
use distributed_kvstore.Text.Words.{extract, is_space, IsWord}
use distributed_kvstore.Text.Words.Reading.{
  Stops, extract-append, extract_next, set-IsWord, del-IsWord,
}
use distributed_kvstore.Text.Decimal.{to_string}
use distributed_kvstore.Text.Words.Split.{first_word-words, other_words-words}
use distributed_kvstore.Node.Reading.{propagate-IsWord}
use distributed_kvstore.Dict.{HashOrder}
use distributed_kvstore.Merkle.{Merkle}
use distributed_kvstore.Store.Updates.{Update, puts, removes}
use distributed_kvstore.Node.{
  Node, has_peer, propagate_update, propagated, set_command, del_command, process_command,
}
use distributed_kvstore.Node.Cases.{process_command-cases}
use distributed_kvstore.Node.Contract.{changes, request, request_of}

module _ (M : Merkle) where
  -- The message of an update. A DEL has its second word in it, too.
  abbrev pub Tells : Update → Bytes → Type 0
  Tells (puts key v) message = message ≡ propagated M (codes "SET") key v.value v.timestamp
  Tells (removes key timestamp) message =
      (value : Bytes) × (message ≡ propagated M (codes "DEL") key value timestamp)

  -- The message of the one update that was done.
  abbrev pub TellsOf : List Update → Bytes → Type 0
  TellsOf us message = (u : Update) × (us ≡ u ∷ []) × Tells u message

  sent-All :
      (P : Bytes → Type 0) (b : Bool) (n : Node M) (message : Bytes)
      → P message
      → All P (if b then [] else propagate_update M n message)
  unfolding propagate_update
  sent-All P true n message h = tt
  sent-All P false n message h = elim (Bool-cases (has_peer n.peer_host n.peer_port)) [
    | inl e ↦ rw e (h, tt)
    | inr e ↦ rw e tt
  ]

  pub process_command-TellsOf :
      (H : HashOrder) (n : Node M) (now : ℕ) (command : Bytes)
      → All (TellsOf (changes now (request command))) (process_command M H n now command).sent
  process_command-TellsOf H n now =
      process_command-cases M H n now (λ q r. All (TellsOf (changes now q)) r.sent) (λ key. tt)
        (λ b key value.
          sent-All _ b (set_command M H n now b key value).node _
            (puts key (record { value = value; timestamp = now }), refl, refl))
        (λ b key value.
          sent-All _ b (del_command M H n now b key value).node _
            (removes key now, refl, (value, refl)))
        (λ s. tt) tt

  -- A marked command of a verb and a key, and what is read behind them.
  request-marked :
      (verb key rest : Bytes)
      → IsWord verb
      → IsWord key
      → Stops rest
      → request (codes "PROPAGATE " ++ (verb ++ 32 ∷ (key ++ rest)))
        ≡ request_of verb key (extract rest).0
  unfolding is_space bytes_dec
  request-marked verb key rest v k stop =
      let s = 32 ∷ (verb ++ 32 ∷ (key ++ rest)) in
      let t = 32 ∷ (key ++ rest) in
      rw
        (
          first_word-words (codes "PROPAGATE" ++ s),
          other_words-words (codes "PROPAGATE" ++ s),
          extract-append (codes "PROPAGATE") s propagate-IsWord refl,
          first_word-words s,
          other_words-words s,
          extract_next verb t v refl,
          first_word-words t,
          other_words-words t,
          extract_next key rest k stop,
          first_word-words rest,
        )
        refl

  -- Its key, and its value if it has one, are words, and a session's buffer holds what tells of it. Of
  -- a DEL, it need only hold the key and a byte behind it.
  abbrev pub IsWhole : Update → Type 0
  IsWhole (puts key v) = IsWord key × IsWord v.value × Fits M (codes "SET") key v.value v.timestamp
  IsWhole (removes key timestamp) = IsWord key × (length key < 1010)

  abbrev pub retimed : ℕ → Update → Update
  retimed now (puts key v) = puts key (record { value = v.value; timestamp = now })
  retimed now (removes key timestamp) = removes key now

  -- What a buffer holds of the message of a removal.
  take_del :
      (key value : Bytes) (timestamp : ℕ)
      → length key < 1010
      → let rest = value ++ 32 ∷ to_string timestamp in
        take 1024 (propagated M (codes "DEL") key value timestamp)
        ≡ codes "PROPAGATE " ++ (codes "DEL" ++ 32 ∷ (key ++ 32 ∷ take (1009 - length key) rest))
  take_del key value timestamp lt =
      take_key (codes "PROPAGATE DEL ") key (value ++ 32 ∷ to_string timestamp) refl lt

  -- The receiver of the message of a whole update, or of what its buffer holds of it, does the same,
  -- at its own time.
  pub changes-told :
      (now : ℕ) (u : Update) (message : Bytes)
      → IsWhole u
      → Tells u message
      → changes now (request (take 1024 message)) ≡ retimed now u ∷ []
  unfolding is_space bytes_dec
  changes-told now (puts key v) message (k, w, fits) e =
      let stamp = 32 ∷ to_string v.timestamp in
      rw
        (
          e,
          take-propagated M (codes "SET") key v.value v.timestamp fits,
          request-marked (codes "SET") key (32 ∷ (v.value ++ stamp)) set-IsWord k refl,
          extract_next v.value stamp w refl,
        )
        refl
  changes-told now (removes key timestamp) message (k, lt) (value, e) =
      let rest = take (1009 - length key) (value ++ 32 ∷ to_string timestamp) in
      rw
        (
          e,
          take_del key value timestamp lt,
          request-marked (codes "DEL") key (32 ∷ rest) del-IsWord k refl,
        )
        refl
