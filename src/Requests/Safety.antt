-- ===== src/Requests/Safety.antt =====
-- What the requests of a node to its peer cannot do, whatever the peer answers.
use distributed_kvstore.Prelude.{◌≡◌, refl, Bytes, ok, arith}
use distributed_kvstore.Dict.{HashOrder, NodupKeys}
use distributed_kvstore.Merkle.{Merkle}
use distributed_kvstore.Store.{Shared}
use distributed_kvstore.Store.IndexSync.{IsSynced}
use distributed_kvstore.Io.{World, catch_all}
use distributed_kvstore.AntiEntropy.{Run, firsts}
use distributed_kvstore.AntiEntropy.Safety.{
  Keeps, SetKeeps, Keeps-bind, Keeps-connect, Keeps-exchange, Keeps-lift, Keeps-for_each,
  Keeps-set_now, IsLater, set-IsLater,
}
use distributed_kvstore.Requests.{
  parse_keys_with_timestamps, fetch_and_update_key, fetch_and_update_all_keys,
}

module _ (M : Merkle) (H : HashOrder) (W : World) (P : Shared M → Type 0)
    (set_keeps : SetKeeps M H W P) where
  Keeps-catch_all : (m : Run M H W (Unit {0})) → Keeps M H W P m → Keeps M H W P (catch_all m)
  Keeps-catch_all m k = record { at = λ s h. k.at s h }

  Keeps-fetch_and_update_key : (key : Bytes) → Keeps M H W P (fetch_and_update_key H M W key)
  unfolding fetch_and_update_key
  Keeps-fetch_and_update_key key = Keeps-catch_all _ (
      Keeps-bind M H W P _ _ (Keeps-connect M H W P) λ _.
        Keeps-bind M H W P _ _ (Keeps-exchange M H W P 1024 _)
          λ value. Keeps-set_now M H W P set_keeps key value)

  Keeps-fetch_and_update_all_keys : Keeps M H W P (fetch_and_update_all_keys H M W)
  unfolding fetch_and_update_all_keys
  Keeps-fetch_and_update_all_keys = Keeps-catch_all _ (
      Keeps-bind M H W P _ _ (Keeps-connect M H W P) λ _.
        Keeps-bind M H W P _ _ (Keeps-exchange M H W P 1024 _) λ response.
          Keeps-bind M H W P _ _ (Keeps-lift M H W P (parse_keys_with_timestamps H response)) λ d.
            Keeps-for_each M H W P (fetch_and_update_key H M W) Keeps-fetch_and_update_key
              (firsts d))

module _ (M : Merkle) (H : HashOrder) where
  -- Whatever the peer answers and whatever throws, `fetch_and_update_all_keys` returns: it lets no
  -- exception out. From a store whose table holds no key twice and whose index is the one that its
  -- entries build, it keeps both, and leaves every entry with its timestamp or a later one.
  pub fetch_all-IsLater :
      (W : World) (s : Shared M) (w : W.State)
      → NodupKeys s.kv.store
      → IsSynced H M s
      → let r = fetch_and_update_all_keys H M W (s, w) in (r.0 ≡ ok tt) × IsLater H M s r.1.0
  unfolding fetch_and_update_all_keys
  fetch_all-IsLater W s w distinct synced =
      let k = Keeps-fetch_and_update_all_keys M H W (IsLater H M s) (set-IsLater M H s) in
      (
        refl,
        k.at (s, w)
            (record { distinct = distinct; synced = synced; kept = λ j v e. (v, e, omega arith) }),
      )
