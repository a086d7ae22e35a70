-- ===== src/AntiEntropy/Safety.antt =====
-- What no peer can do to a store through a run of anti-entropy, whatever it answers and wherever the
-- run throws.
use mathlib.Core.Path.{subst}
use distributed_kvstore.Prelude.{
  ℕ, zero, suc, ◌≡◌, ◌≤◌, sym, Bool, true, false, some, List, [], ◌∷◌, Bytes, codes, Result, ok,
  err, if◌then◌else◌, arith, Option-cases, inl, inr,
}
use distributed_kvstore.Dict.{HashOrder, NodupKeys}
use distributed_kvstore.Merkle.{Merkle}
use distributed_kvstore.Store.{Shared, ValueWithTimestamp, set}
use distributed_kvstore.Store.Effects.{set-NodupKeys, set-advances}
use distributed_kvstore.Store.IndexSync.{IsSynced, set-IsSynced}
use distributed_kvstore.Store.Updates.{view}
use distributed_kvstore.Node.{AntiEntropyManager}
use distributed_kvstore.Io.{World, pure, lift, state, ◌>>=◌, for_each, after}
use distributed_kvstore.AntiEntropy.{
  Run, connect, exchange, set_now, update_key, differing_keys, synchronise, run_with_index,
  run_anti_entropy, start_rounds, parse_peer_paths, remote_paths,
}

module _ (M : Merkle) (H : HashOrder) (W : World) (P : Shared M → Type 0) where
  -- An action that keeps `P` of the store, whether it returns or throws.
  pub record Keeps {A : Type 0} (m : Run M H W A) : Type 0 where
    pub at : (s : Shared M × W.State) → P s.0 → P (m s).1.0

  abbrev pub SetKeeps : Type 0
  SetKeeps = (s : Shared M) (key value : Bytes) (now : ℕ) → P s → P (set H M s key value now).0

  module _ {A : Type 0} where
    Keeps-same : (m : Run M H W A) → ((s : Shared M × W.State) → (m s).1.0 ≡ s.0) → Keeps m
    Keeps-same m same = record { at = λ s h. subst P (sym (same s)) h }

    pub Keeps-pure : (a : A) → Keeps (pure a)
    Keeps-pure a = record { at = λ s h. h }

    pub Keeps-lift : (r : Result A) → Keeps (lift r)
    Keeps-lift r = record { at = λ s h. h }

    Keeps-if : (b : Bool) (m n : Run M H W A) → Keeps m → Keeps n → Keeps (if b then m else n)
    Keeps-if true m n km kn = km
    Keeps-if false m n km kn = kn

  module _ {A B : Type 0} where
    Keeps-after :
        (r : Result A × (Shared M × W.State)) (f : A → Run M H W B)
        → P r.1.0
        → ((a : A) → Keeps (f a))
        → P (after r f).1.0
    Keeps-after (ok a, s) f h kf = (kf a).at s h
    Keeps-after (err e, s) f h kf = h

    pub Keeps-bind :
        (m : Run M H W A) (f : A → Run M H W B)
        → Keeps m
        → ((a : A) → Keeps (f a))
        → Keeps (m >>= f)
    Keeps-bind m f km kf = record { at = λ s h. Keeps-after (m s) f (km.at s h) kf }

  module _ {A : Type 0} where
    pub Keeps-for_each :
        (f : A → Run M H W (Unit {0}))
        → ((a : A) → Keeps (f a))
        → (xs : List A) → Keeps (for_each f xs)
    unfolding for_each
    Keeps-for_each f kf [] = record { at = λ s h. h }
    Keeps-for_each f kf (x ∷ xs) = record {
      at = λ s h.
          Keeps-after (f x s) (λ _. for_each f xs) ((kf x).at s h) (λ _. Keeps-for_each f kf xs);
    }

  pub Keeps-state : Keeps (state {S = Shared M × W.State})
  Keeps-state = record { at = λ s h. h }

  pub Keeps-connect : Keeps (connect M H W)
  Keeps-connect = record { at = λ s h. h }

  pub Keeps-exchange : (n : ℕ) (request : Bytes) → Keeps (exchange M H W n request)
  Keeps-exchange n request = record { at = λ s h. h }

  ruleset rules =
      (Keeps-state, Keeps-pure, Keeps-lift, Keeps-if, Keeps-bind, Keeps-connect, Keeps-exchange)

  pub Keeps-differing_keys : (p : ℕ) (s : Bytes) → Keeps (differing_keys M H W p s)
  unfolding differing_keys
  Keeps-differing_keys p s = Keeps-bind _ _ (Keeps-lift (parse_peer_paths s)) λ paths.
      Keeps-bind _ _ (Keeps-lift (remote_paths M paths))
        λ remote. Keeps-bind _ _ Keeps-state λ now. Keeps-pure _

  module _ (set_keeps : SetKeeps) where
    pub Keeps-set_now : (key value : Bytes) → Keeps (set_now M H W key value)
    Keeps-set_now key value = record { at = λ s h. set_keeps s.0 key value _ h }

    Keeps-update_key : (key : Bytes) → Keeps (update_key M H W key)
    unfolding update_key
    Keeps-update_key key = search (rules, Keeps-set_now)

    Keeps-synchronise : (p : ℕ) → Keeps (synchronise M H W p)
    unfolding synchronise
    Keeps-synchronise p = Keeps-bind _ _ (Keeps-exchange 4096 (codes "GET_ALL")) λ keys.
        Keeps-bind _ _ (Keeps-exchange 4096 _) λ paths.
          Keeps-bind _ _ (Keeps-differing_keys p paths)
            λ differing. Keeps-for_each (update_key M H W) Keeps-update_key differing

    Keeps-run_with_index : (p : ℕ) → Keeps (run_with_index M H W p)
    unfolding run_with_index
    Keeps-run_with_index p = Keeps-bind _ _ Keeps-state λ before. Keeps-bind _ _ Keeps-connect λ _.
        Keeps-bind _ _ (Keeps-exchange 4096 (codes "GET_MERKLE_ROOT"))
          λ root. Keeps-if _ _ _ (Keeps-pure tt) (Keeps-synchronise p)

    pub Keeps-run : (manager : AntiEntropyManager) → Keeps (run_anti_entropy M H W manager)
    unfolding run_anti_entropy
    Keeps-run manager = elim (Option-cases manager.merkle_index) [
      | inl e ↦ rw e (Keeps-pure tt)
      | inr (p, e) ↦ rw e (Keeps-run_with_index p)
    ]

    Keeps-rounds : (n : ℕ) (manager : AntiEntropyManager) → Keeps (start_rounds M H W n manager)
    unfolding start_rounds
    Keeps-rounds zero manager = record { at = λ s h. h }
    Keeps-rounds (suc n) manager = record {
      at = λ s h. (Keeps-rounds n manager).at _ ((Keeps-run manager).at s h);
    }

-- The table holds no key twice, the index is the one that the entries build, and every entry of an
-- earlier store is still there, with its timestamp or a later one.
pub record IsLater (H : HashOrder) (M : Merkle) (before : Shared M) (s : Shared M) : Type 0 where
  pub distinct : NodupKeys s.kv.store
  pub synced : IsSynced H M s
  pub kept :
      (j : Bytes) (v : ValueWithTimestamp)
      → view before j ≡ some v
      → (w : ValueWithTimestamp) × (view s j ≡ some w) × (v.timestamp ≤ w.timestamp)

module _ (M : Merkle) (H : HashOrder) where
  pub set-IsLater :
      (before s : Shared M) (key value : Bytes) (now : ℕ)
      → IsLater H M before s
      → IsLater H M before (set H M s key value now).0
  set-IsLater before s key value now h = record {
    distinct = set-NodupKeys H M s key value now h.distinct;
    synced = set-IsSynced H M s key value now h.synced;
    kept = λ j v e.
        let (w, held, le) = h.kept j v e in
        let (x, holds, le') = set-advances H M s key value now j w h.distinct held in
        (x, holds, omega arith);
  }

  -- From a store whose table holds no key twice and whose index is the one that its entries build:
  -- whatever the peer answers and wherever a run throws, after any number of rounds of the thread the
  -- table holds no key twice, the index is the one that the entries build, and every entry that
  -- the store held is there with its timestamp or a later one: nothing is removed, nothing goes back.
  pub rounds-IsLater :
      (W : World) (n : ℕ) (manager : AntiEntropyManager) (s : Shared M) (w : W.State)
      → NodupKeys s.kv.store
      → IsSynced H M s
      → IsLater H M s (start_rounds M H W n manager (s, w)).1.0
  rounds-IsLater W n manager s w distinct synced =
      (Keeps-rounds M H W (IsLater H M s) (set-IsLater s) n manager).at (s, w)
        (record { distinct = distinct; synced = synced; kept = λ j v e. (v, e, omega arith) })
