-- ===== src/Requests/Listing.antt =====
-- A GET_ALL listing is read back by `parse_keys_with_timestamps`.
use mathlib.Core.List.{append-nil}
use distributed_kvstore.Prelude.{
  ℕ, zero, suc, ◌≤◌, ◌<◌, ◌≡◌, refl, sym, ap, ◌∙◌, none, some, [], ◌∷◌, ◌++◌, Bytes, arith, All, ok,
  length, length-append,
}
use distributed_kvstore.Text.{Lacks}
use distributed_kvstore.Text.Decimal.{max_u64, to_string, stoull, is_digit}
use distributed_kvstore.Text.Decimal.RoundTrip.{stoull-to_string, to_string-Lacks}
use distributed_kvstore.Text.Fields.{break_at, break_at-append}
use distributed_kvstore.Dict.{Dict, HashOrder, find, assign, NodupKeys}
use distributed_kvstore.Dict.Merge.{
  assign_all, find-assign_all, or_else-none, map_values, find-map_values, map_values-NodupKeys,
  map_entry,
}
use distributed_kvstore.Store.{KeyValueStore, ValueWithTimestamp, get_all_keys_with_timestamps}
use distributed_kvstore.Node.{list_keys}
use distributed_kvstore.Requests.{parse_keys, parse_keys_with_timestamps, result_of}

-- No key holds a colon, and every timestamp is a `uint64_t`.
abbrev pub IsListable : Dict ℕ → Type 0
IsListable = All (λ e. Lacks b':' e.0 × (e.1 ≤ max_u64))

pub to_string-Lacks_semicolon : (n : ℕ) → Lacks b';' (to_string n)
unfolding is_digit
to_string-Lacks_semicolon n = to_string-Lacks b';' n refl

stoull-to_string_alone : (n : ℕ) → n ≤ max_u64 → stoull (to_string n) ≡ ok n
stoull-to_string_alone n h = ap stoull (sym (append-nil (to_string n))) ∙ stoull-to_string n [] h tt

listed_entries :
    (d : Dict ValueWithTimestamp)
    → get_all_keys_with_timestamps (record { store = d; merkle_index = none })
      ≡ map_values (λ (v : ValueWithTimestamp). v.timestamp) d
unfolding get_all_keys_with_timestamps
listed_entries [] = refl
listed_entries ((k, v) ∷ d) = ap (λ (l : Dict ℕ). (k, v.timestamp) ∷ l) (listed_entries d)

listed :
    (s : KeyValueStore)
    → get_all_keys_with_timestamps s ≡ map_values (λ (v : ValueWithTimestamp). v.timestamp) s.store
unfolding get_all_keys_with_timestamps
listed s = listed_entries s.store

module _ (H : HashOrder) where
  parse_keys-step :
      (f : ℕ) (s key behind ts_str rest : Bytes) (t : ℕ) (out : Dict ℕ)
      → break_at b':' s ≡ (key, some behind)
      → break_at b';' behind ≡ (ts_str, some rest)
      → stoull ts_str ≡ ok t
      → parse_keys H (suc f) s out ≡ parse_keys H f rest (assign H key t out)
  unfolding parse_keys
  parse_keys-step f [] key behind ts_str rest t out e₁ e₂ e₃ = absurd (unfold break_at in cc)
  parse_keys-step f (c ∷ s) key behind ts_str rest t out e₁ e₂ e₃ = ground arith

  parse_keys-entry :
      (f : ℕ) (key : Bytes) (t : ℕ) (rest : Bytes) (out : Dict ℕ)
      → Lacks b':' key
      → t ≤ max_u64
      → parse_keys H (suc f) (key ++ b':' ∷ (to_string t ++ b';' ∷ rest)) out
        ≡ parse_keys H f rest (assign H key t out)
  parse_keys-entry f key t rest out h fits =
      parse_keys-step f _ key (to_string t ++ b';' ∷ rest) (to_string t) rest t out
        (break_at-append b':' key _ h)
        (break_at-append b';' (to_string t) rest (to_string-Lacks_semicolon t))
        (stoull-to_string_alone t fits)

  parse_keys-list :
      (l : Dict ℕ) (f : ℕ) (out : Dict ℕ)
      → IsListable l
      → length l < f
      → parse_keys H f (list_keys l) out ≡ some (ok (assign_all H l out))
  unfolding list_keys
  parse_keys-list l zero out h fuel = absurd (omega arith)
  parse_keys-list [] (suc f) out h fuel = unfold parse_keys assign_all in refl
  parse_keys-list ((k, t) ∷ l) (suc f) out ((hk, ht), h) fuel =
      parse_keys-entry f k t (list_keys l) out hk ht
      ∙ parse_keys-list l f (assign H k t out) h (omega arith)
      ∙ unfold assign_all in refl

  length-list_keys : (l : Dict ℕ) → length l ≤ length (list_keys l)
  unfolding list_keys
  length-list_keys [] = omega arith
  length-list_keys ((k, t) ∷ l) = omega (
    arith,
    length-append k (b':' ∷ (to_string t ++ b';' ∷ list_keys l)),
    length-append (to_string t) (b';' ∷ list_keys l),
    length-list_keys l,
  )

  -- Of a store that holds no key twice, none of its keys with a colon and its timestamps below 2^64,
  -- the listing that a peer gives for GET_ALL is read without an exception, and what is read has for
  -- each key the timestamp that the store has, and no other key.
  pub parse-list_keys :
      (s : KeyValueStore)
      → NodupKeys s.store
      → IsListable (get_all_keys_with_timestamps s)
      → (out : Dict ℕ) × (parse_keys_with_timestamps H (list_keys (get_all_keys_with_timestamps s))
          ≡ ok out)
        × ((k : Bytes) → find k out ≡ map_entry (λ v. v.timestamp) (find k s.store))
  unfolding parse_keys_with_timestamps find
  parse-list_keys s n h =
      let l = get_all_keys_with_timestamps s in
      let values = map_values (λ (v : ValueWithTimestamp). v.timestamp) s.store in
      let distinct = map_values-NodupKeys (λ (v : ValueWithTimestamp). v.timestamp) s.store n in
      (
        assign_all H l [],
        ap (result_of H) (
            parse_keys-list l (suc (length (list_keys l))) [] h
              (omega (arith, length-list_keys l))),
        λ k.
            ap (λ (d : Dict ℕ). find k (assign_all H d [])) (listed s)
            ∙ find-assign_all H values [] k distinct tt
            ∙ or_else-none (find k values)
            ∙ find-map_values (λ (v : ValueWithTimestamp). v.timestamp) k s.store,
      )
