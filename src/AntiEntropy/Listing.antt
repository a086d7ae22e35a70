-- ===== src/AntiEntropy/Listing.antt =====
-- What the manager reads of a GET_ALL response that its buffer cuts.
use mathlib.Core.List.{append_assoc, append-nil}
use distributed_kvstore.Prelude.{
  ℕ, zero, suc, ◌≡◌, ◌≢◌, refl, codes, All-append, sym, ap, ◌∙◌, true, false, Option, none, some,
  inl, inr, List, [], ◌∷◌, ◌++◌, Bytes, arith, All, take, ◌==◌ as nat_eq, Bool-cases,
}
use distributed_kvstore.Text.{Lacks, bytes_dec}
use distributed_kvstore.Text.Words.{is_space, extract}
use distributed_kvstore.Text.Decimal.{to_string}
use distributed_kvstore.Text.Fields.{
  break_at, fields, fields_after, last_field, fields-append, break_at-append,
}
use distributed_kvstore.Dict.{HashOrder}
use distributed_kvstore.Merkle.{Merkle}
use distributed_kvstore.Store.{get_all_keys_with_timestamps}
use distributed_kvstore.Node.{Node, list_keys, process_command, read_operands, dispatch}
use distributed_kvstore.Requests.Listing.{to_string-Lacks_semicolon}
use distributed_kvstore.AntiEntropy.{key_before, keys_of_entries, parse_peer_keys, firsts}

-- A list that begins with another.
abbrev pub Extends {ℓ} : {A : Type ℓ} → List A → List A → Type ℓ
Extends {A} ys xs = (rest : List A) × (ys ≡ xs ++ rest)

-- What follows the character does not change what is in front of it.
break_at-extended :
    (c : ℕ) (s p r t : Bytes)
    → break_at c s ≡ (p, some r)
    → break_at c (s ++ t) ≡ (p, some (r ++ t))
unfolding break_at
break_at-extended c [] p r t e = cc
break_at-extended c (b ∷ s) p r t e = ground (arith, break_at-extended c s (break_at c s).0 r t)

last_keys : (cur : Bytes) → keys_of_entries (last_field cur) ≡ key_before (break_at b':' cur) []
unfolding keys_of_entries break_at
last_keys [] = refl
last_keys (c ∷ cur) = refl

key_before-Extends :
    (b : Bytes × Option Bytes) (keys : List Bytes) → Extends (key_before b keys) (key_before b [])
key_before-Extends (key, none) keys = (keys, refl)
key_before-Extends (key, some rest) keys = (keys, refl)

module _ {ℓ} {A : Type ℓ} where
  Extends-trans : (xs ys zs : List A) → Extends zs ys → Extends ys xs → Extends zs xs
  Extends-trans xs ys zs (r, e) (r', e') =
      (r' ++ r, e ∙ ap (λ (l : List A). l ++ r) e' ∙ append_assoc xs r' r)

key_before-cons :
    (b : Bytes × Option Bytes) (ks ls : List Bytes)
    → Extends ks ls
    → Extends (key_before b ks) (key_before b ls)
key_before-cons (key, none) ks ls h = h
key_before-cons (key, some rest) ks ls (r, e) = (r, ap (λ (l : List Bytes). key ∷ l) e)

cut_key :
    (b b' : Bytes × Option Bytes)
    → ((key r : Bytes) → b ≡ (key, some r) → (r' : Bytes) × (b' ≡ (key, some r')))
    → Extends (key_before b' []) (key_before b [])
cut_key (key, none) b' h = (key_before b' [], refl)
cut_key (key, some r) b' h = let (r', e) = h key r refl in ([], rw e refl)

-- More bytes in a field that is cut: no key is lost.
longer_field :
    (cur t : Bytes)
    → Extends (keys_of_entries (last_field (cur ++ t))) (keys_of_entries (last_field cur))
longer_field cur t =
    rw (last_keys cur, last_keys (cur ++ t))
      (cut_key (break_at b':' cur) (break_at b':' (cur ++ t))
        (λ key r e. (r ++ t, break_at-extended b':' cur key r t e)))

fields_after-separator :
    (sep : ℕ) (cur : Bytes) (c : ℕ) (s : Bytes)
    → nat_eq c sep ≡ true
    → fields_after sep cur (c ∷ s) ≡ cur ∷ fields_after sep [] s
unfolding fields_after
fields_after-separator sep cur c s e = ground (arith, e)

fields_after-other :
    (sep : ℕ) (cur : Bytes) (c : ℕ) (s : Bytes)
    → nat_eq c sep ≡ false
    → fields_after sep cur (c ∷ s) ≡ fields_after sep (cur ++ c ∷ []) s
unfolding fields_after
fields_after-other sep cur c s e = ground (arith, e)

keys_of-cons :
    (e : Bytes) (entries : List Bytes)
    → keys_of_entries (e ∷ entries) ≡ key_before (break_at b':' e) (keys_of_entries entries)
unfolding keys_of_entries
keys_of-cons e entries = refl

later_fields :
    (cur s : Bytes)
    → Extends (keys_of_entries (fields_after b';' cur s)) (keys_of_entries (last_field cur))
later_fields cur [] = ([], unfold fields_after in sym (append-nil _))
later_fields cur (c ∷ s) = elim (Bool-cases (nat_eq c b';')) [
  | inl e ↦
      rw
        (
          fields_after-separator b';' cur c s e,
          keys_of-cons cur (fields_after b';' [] s),
          last_keys cur,
        )
        (key_before-Extends (break_at b':' cur) (keys_of_entries (fields_after b';' [] s)))
  | inr e ↦
      rw (fields_after-other b';' cur c s e)
        (Extends-trans _ _ _ (later_fields (cur ++ c ∷ []) s) (longer_field cur (c ∷ [])))
]

cut_fields :
    (q cur p : Bytes)
    → Extends
        (keys_of_entries (fields_after b';' cur (p ++ q)))
        (keys_of_entries (fields_after b';' cur p))
cut_fields q cur [] = unfold fields_after in later_fields cur q
cut_fields q cur (c ∷ p) = elim (Bool-cases (nat_eq c b';')) [
  | inl e ↦
      rw
        (
          fields_after-separator b';' cur c (p ++ q) e,
          fields_after-separator b';' cur c p e,
          keys_of-cons cur (fields_after b';' [] (p ++ q)),
          keys_of-cons cur (fields_after b';' [] p),
        )
        (key_before-cons (break_at b':' cur) _ _ (cut_fields q [] p))
  | inr e ↦
      rw (fields_after-other b';' cur c (p ++ q) e, fields_after-other b';' cur c p e)
        (cut_fields q (cur ++ c ∷ []) p)
]

parse_peer_keys-append : (p q : Bytes) → Extends (parse_peer_keys (p ++ q)) (parse_peer_keys p)
unfolding parse_peer_keys fields
parse_peer_keys-append p q = cut_fields q [] p

take_append : (n : ℕ) (s : Bytes) → Extends s (take n s)
take_append zero s = (s, refl)
take_append (suc n) [] = ([], refl)
take_append (suc n) (c ∷ s) = let (q, e) = take_append n s in (q, ap (λ (t : Bytes). c ∷ t) e)

-- The separators of a listing do not occur in the keys.
abbrev pub HasPlainKeys : List (Bytes × ℕ) → Type 0
HasPlainKeys = All (λ e. Lacks b':' e.0 × Lacks b';' e.0)

fields-list_keys :
    (key : Bytes) (timestamp : ℕ) (l : List (Bytes × ℕ))
    → Lacks b';' key
    → fields b';' (list_keys ((key, timestamp) ∷ l))
      ≡ (key ++ b':' ∷ to_string timestamp) ∷ fields b';' (list_keys l)
unfolding list_keys
fields-list_keys key timestamp l h =
    ap (fields b';') (sym (append_assoc key (b':' ∷ to_string timestamp) _))
    ∙ fields-append b';' (key ++ b':' ∷ to_string timestamp) (list_keys l) (
        All-append (λ b. b ≢ b';') key (b':' ∷ to_string timestamp) h
          (omega arith, to_string-Lacks_semicolon timestamp))

-- The whole listing is read back as its keys.
parse_peer_keys-list_keys :
    (l : List (Bytes × ℕ)) → HasPlainKeys l → parse_peer_keys (list_keys l) ≡ firsts l
unfolding parse_peer_keys firsts
parse_peer_keys-list_keys [] h = unfold fields fields_after list_keys keys_of_entries in refl
parse_peer_keys-list_keys ((key, t) ∷ l) ((colon, semicolon), h) =
    ap keys_of_entries (fields-list_keys key t l semicolon)
    ∙ keys_of-cons (key ++ b':' ∷ to_string t) (fields b';' (list_keys l))
    ∙ rw (break_at-append b':' key (to_string t) colon)
        (ap (λ (ks : List Bytes). key ∷ ks) (parse_peer_keys-list_keys l h))

module _ (M : Merkle) (H : HashOrder) (n : Node M) (now : ℕ) where
  get_all-response :
      (process_command M H n now (codes "GET_ALL")).response
      ≡ list_keys (get_all_keys_with_timestamps n.shared.kv)
  unfolding process_command extract read_operands dispatch is_space bytes_dec
  get_all-response = refl

  -- However many bytes of a node's response to GET_ALL the manager's buffer holds, the keys that it
  -- reads are the first of those that the node has, in their order, where no key has a colon or a
  -- semicolon: none is made up, and none is left out before another.
  pub cut_listing :
      (size : ℕ)
      → HasPlainKeys (get_all_keys_with_timestamps n.shared.kv)
      → (rest : List Bytes) × (firsts (get_all_keys_with_timestamps n.shared.kv)
          ≡ parse_peer_keys (take size (process_command M H n now (codes "GET_ALL")).response)
            ++ rest)
  cut_listing size h =
      let l = get_all_keys_with_timestamps n.shared.kv in
      let (q, e) = take_append size (list_keys l) in
      let (rest, e') = parse_peer_keys-append (take size (list_keys l)) q in
      rw get_all-response (rest, sym (parse_peer_keys-list_keys l h) ∙ ap parse_peer_keys e ∙ e')
