-- ===== src/Store/Updates/Conflicts.antt =====
-- Where last-writer-wins ends: removals leave no timestamp behind, and equal timestamps are settled
-- by the order of arrival.
use distributed_kvstore.Prelude.{ℕ, ◌≡◌, ◌≢◌, true, some, List, [], ◌∷◌, Bytes, arith, ◌<◌}
use distributed_kvstore.Dict.{HashOrder, find, NodupKeys}
use distributed_kvstore.Merkle.{Merkle}
use distributed_kvstore.Store.{Shared, may_set, may_del, set, del}
use distributed_kvstore.Store.Effects.{find-set, find-del, set-result, del-NodupKeys}
use distributed_kvstore.Store.Updates.{Update, puts, run, view, register_run, view-run}

module _ (H : HashOrder) (M : Merkle) (s : Shared M) (key : Bytes) (n : NodupKeys s.kv.store) where
  view_of_run : (us : List Update) → view (run H M s us) key ≡ register_run (view s) us key
  view_of_run us = view-run H M us s key n

  -- In a table that holds no key twice, a removal that is accepted forgets its timestamp: a write of
  -- the key that is older than the removal is accepted behind it, and the key is back.
  set-del :
      (value : Bytes) (removed written : ℕ)
      → may_del (find key s.kv.store) removed ≡ true
      → written < removed
      → ((set H M (del H M s key removed).0 key value written).1 ≡ true)
        × (view (set H M (del H M s key removed).0 key value written).0 key
            ≡ some (record { value = value; timestamp = written }))
  set-del value removed written h older =
      let gone = find-del H M s key removed key n in
      let t = (del H M s key removed).0 in
      let m = del-NodupKeys H M s key removed n in
      (
        ground (arith, gone, set-result H M t key value written),
        ground (arith, gone, find-set H M t key value written key m),
      )

  -- In a table that holds no key twice, two writes of one key with one timestamp that the present
  -- entry gives way to leave different entries in the two orders, if their values differ.
  pub ties_diverge :
      (a b : Bytes) (t : ℕ)
      → may_set (find key s.kv.store) t ≡ true
      → a ≢ b
      → let u = puts key (record { value = a; timestamp = t }) in
        let w = puts key (record { value = b; timestamp = t }) in
        view (run H M s (u ∷ w ∷ [])) key ≢ view (run H M s (w ∷ u ∷ [])) key
  unfolding register_run
  ties_diverge a b t h differ e =
      let u = puts key (record { value = a; timestamp = t }) in
      let w = puts key (record { value = b; timestamp = t }) in
      ground (arith, e, view_of_run (u ∷ w ∷ []), view_of_run (w ∷ u ∷ []))
