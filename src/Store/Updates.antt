-- ===== src/Store/Updates.antt =====
-- Histories of `set` and `del` calls, and the registers that a client of the store reasons with: one
-- last-writer-wins register for each key.
pub mod Convergence
pub mod Conflicts
pub mod Latest
use mathlib.Core.Path.{fun_ext}
use distributed_kvstore.Prelude.{
  ℕ, ◌≡◌, refl, Bool, true, false, ◌&&◌, Option, none, some, List, [], ◌∷◌, Bytes, leb,
  if◌then◌else◌, arith, ◌∙◌, ap, ◌≤◌,
}
use distributed_kvstore.Text.{◌==◌}
use distributed_kvstore.Dict.{HashOrder, find, NodupKeys}
use distributed_kvstore.Merkle.{Merkle}
use distributed_kvstore.Store.{ValueWithTimestamp, Shared, may_set, may_del, set, del}
use distributed_kvstore.Store.Effects.{find-set, set-NodupKeys, find-del, del-NodupKeys}

pub data Update : Type 0 where
  puts : Bytes → ValueWithTimestamp → Update
  removes : Bytes → ℕ → Update

module _ (H : HashOrder) (M : Merkle) where
  abbrev pub apply : Shared M → Update → Shared M
  apply s (puts key v) = (set H M s key v.value v.timestamp).0
  apply s (removes key timestamp) = (del H M s key timestamp).0

  unfoldable pub run : Shared M → List Update → Shared M
  run s [] = s
  run s (u ∷ us) = run (apply s u) us

-- What a client sees of a store: the entry of each key, whatever the order of the table.
abbrev pub Registers : Type 0
Registers = Bytes → Option ValueWithTimestamp

abbrev pub view : {M : Merkle} → Shared M → Registers
view s key = find key s.kv.store

-- The later of an entry and a new one; of two with one timestamp, the new one.
abbrev pub latest : Option ValueWithTimestamp → ValueWithTimestamp → Option ValueWithTimestamp
latest none v = some v
latest (some w) v = if leb w.timestamp v.timestamp then some v else some w

-- An entry goes unless it is later than its removal.
abbrev pub without_older : Option ValueWithTimestamp → ℕ → Option ValueWithTimestamp
without_older none timestamp = none
without_older (some w) timestamp = if leb w.timestamp timestamp then none else some w

abbrev pub register_step : Registers → Update → Registers
register_step r (puts key v) j = if j == key then latest (r key) v else r j
register_step r (removes key timestamp) j =
    if j == key then without_older (r key) timestamp else r j

unfoldable pub register_run : Registers → List Update → Registers
register_run r [] = r
register_run r (u ∷ us) = register_run (register_step r u) us

module _ (H : HashOrder) (M : Merkle) where
  pub apply-NodupKeys :
      (s : Shared M) (u : Update) → NodupKeys s.kv.store → NodupKeys (apply H M s u).kv.store
  apply-NodupKeys s (puts key v) n = set-NodupKeys H M s key v.value v.timestamp n
  apply-NodupKeys s (removes key timestamp) n = del-NodupKeys H M s key timestamp n

  -- A table that holds no key twice never comes to hold one.
  run-NodupKeys :
      (us : List Update) (s : Shared M) → NodupKeys s.kv.store → NodupKeys (run H M s us).kv.store
  unfolding run
  run-NodupKeys [] s n = n
  run-NodupKeys (u ∷ us) s n = run-NodupKeys us (apply H M s u) (apply-NodupKeys s u n)

  -- One call is one step of the registers.
  pub view-apply :
      (s : Shared M) (u : Update) (j : Bytes)
      → NodupKeys s.kv.store
      → view (apply H M s u) j ≡ register_step (view s) u j
  view-apply s (puts key v) j n = ground (arith, find-set H M s key v.value v.timestamp j n)
  view-apply s (removes key timestamp) j n = ground (arith, find-del H M s key timestamp j n)

  -- From a table that holds no key twice, after any history of sets and removals, with any order of
  -- the table, the store holds for each key what the registers hold.
  pub view-run :
      (us : List Update) (s : Shared M) (j : Bytes)
      → NodupKeys s.kv.store
      → view (run H M s us) j ≡ register_run (view s) us j
  unfolding run register_run
  view-run [] s j n = refl
  view-run (u ∷ us) s j n =
      view-run us (apply H M s u) j (apply-NodupKeys s u n)
      ∙ ap (λ (r : Registers). register_run r us j) (fun_ext (λ k. view-apply s u k n))
