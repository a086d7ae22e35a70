-- ===== src/Store/Updates/Latest.antt =====
-- What is left in a register: something that was written, and of the writes none that is later.
use mathlib.Core.List.{Memᴰ}
use mathlib.Core.List.Memᴰ.{head, tail}
use distributed_kvstore.Prelude.{
  ℕ, ◌≡◌, ◌≢◌, ◌⊎◌, inl, inr, refl, sym, some, List, [], ◌∷◌, Bytes, ◌≤◌, ◌<◌, All, arith, Option,
  none, Bool-cases, leb,
}
use distributed_kvstore.Text.{bytes_dec}
use distributed_kvstore.Store.{ValueWithTimestamp}
use distributed_kvstore.Store.Updates.{
  Update, puts, removes, Registers, latest, register_step, register_run,
}

-- No removal of the key at the time, or a later one.
abbrev pub Spares : Bytes → ℕ → Update → Type 0
Spares key limit (puts j v) = Unit
Spares key limit (removes j timestamp) = (key ≢ j) ⊎ (timestamp < limit)

-- The key has an entry of the time, or a later one.
abbrev pub HasSince : Registers → Bytes → ℕ → Type 0
HasSince r key limit = (v : ValueWithTimestamp) × (r key ≡ some v) × (limit ≤ v.timestamp)

-- Of an entry and a new one, what is left is as late as either.
latest_since :
    (o : Option ValueWithTimestamp) (w : ValueWithTimestamp)
    → (v : ValueWithTimestamp) × (latest o w ≡ some v) × (w.timestamp ≤ v.timestamp)
latest_since none w = (w, refl, omega arith)
latest_since (some u) w = elim (Bool-cases (leb u.timestamp w.timestamp)) [
  | inl e ↦ (w, ground arith, omega arith)
  | inr e ↦ (u, ground arith, ground arith)
]

latest_keeps :
    (u w : ValueWithTimestamp)
    → (v : ValueWithTimestamp) × (latest (some u) w ≡ some v) × (u.timestamp ≤ v.timestamp)
latest_keeps u w = elim (Bool-cases (leb u.timestamp w.timestamp)) [
  | inl e ↦ (w, ground arith, ground arith)
  | inr e ↦ (u, ground arith, omega arith)
]

module _ (key : Bytes) where
  step_written :
      (r : Registers) (u : Update) (v : ValueWithTimestamp)
      → register_step r u key ≡ some v
      → (r key ≡ some v) ⊎ (u ≡ puts key v)
  step_written r (puts j w) v e = grind arith
  step_written r (removes j t) v e = ground arith

  step-HasSince :
      (r : Registers) (u : Update) (limit : ℕ)
      → Spares key limit u
      → HasSince r key limit
      → HasSince (register_step r u) key limit
  step-HasSince r (puts j w) limit h (v, e, p) =
      let (x, q, l) = latest_keeps v w in
      elim (bytes_dec key j) [
        | yes k ↦ (x, ground (arith, q), ground (arith, l))
        | no k ↦ (v, ground arith, p)
      ]
  step-HasSince r (removes j t) limit h (v, e, p) = (v, ground arith, p)

  put-HasSince :
      (r : Registers) (v : ValueWithTimestamp)
      → HasSince (register_step r (puts key v)) key v.timestamp
  put-HasSince r v = let (x, q, l) = latest_since (r key) v in (x, ground (arith, q), l)

  run-HasSince :
      (us : List Update) (r : Registers) (limit : ℕ)
      → All (Spares key limit) us
      → HasSince r key limit
      → HasSince (register_run r us) key limit
  unfolding register_run
  run-HasSince [] r limit hs h = h
  run-HasSince (u ∷ us) r limit (hu, hs) h =
      run-HasSince us (register_step r u) limit hs (step-HasSince r u limit hu h)

  -- A write is lost to a removal of its time or later, or to a write of its time or later, only.
  pub written-HasSince :
      (us : List Update) (r : Registers) (v : ValueWithTimestamp)
      → All (Spares key v.timestamp) us
      → Memᴰ (puts key v) us
      → HasSince (register_run r us) key v.timestamp
  unfolding register_run
  written-HasSince [] r v hs m = elim m [ ]
  written-HasSince (u ∷ us) r v (hu, hs) (head e) =
      run-HasSince us (register_step r u) v.timestamp hs (rw (sym e) (put-HasSince r v))
  written-HasSince (u ∷ us) r v (hu, hs) (tail m) = written-HasSince us (register_step r u) v hs m

  -- A value comes from nowhere but a write.
  pub run_written :
      (us : List Update) (r : Registers) (v : ValueWithTimestamp)
      → register_run r us key ≡ some v
      → (r key ≡ some v) ⊎ Memᴰ (puts key v) us
  unfolding register_run
  run_written [] r v e = inl e
  run_written (u ∷ us) r v e = elim (run_written us (register_step r u) v e) [
    | inl h ↦ elim (step_written r u v h) [ inl q ↦ inl q | inr q ↦ inr (head (sym q)) ]
    | inr m ↦ inr (tail m)
  ]
