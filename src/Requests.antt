-- ===== src/Requests.antt =====
-- The requests that a node can make of its peer, from node.hpp: `parse_keys_with_timestamps`,
-- `fetch_and_update_key`, `fetch_and_update_all_keys` and the thread of `propagate_update`.
pub mod Listing
pub mod Retry
pub mod Safety
pub mod Fuel
pub mod FetchAll
use distributed_kvstore.Prelude.{
  ℕ, zero, suc, ◌+◌, ◌*◌, ◌^◌, Bool, true, false, Option, none, some, List, [], ◌∷◌, ◌++◌, Bytes,
  codes, Result, ok, err, length, if◌then◌else◌, ◌>>=◌ as then_result, ltb,
}
use distributed_kvstore.Text.Decimal.{stoull}
use distributed_kvstore.Text.Fields.{break_at}
use distributed_kvstore.Dict.{Dict, HashOrder, assign}
use distributed_kvstore.Merkle.{Merkle}
use distributed_kvstore.Store.{Shared}
use distributed_kvstore.Io.{World, Io, lift, ◌>>=◌, ◌>>◌, catch_all, for_each}
use distributed_kvstore.AntiEntropy.{Run, connect, exchange, set_now, firsts}

module _ (H : HashOrder) where
  -- The loop of `parse_keys_with_timestamps`: none where the fuel runs out before the loop ends, and
  -- otherwise the map, or what `stoull` throws.
  unfoldable pub parse_keys : ℕ → Bytes → Dict ℕ → Option (Result (Dict ℕ))
  parse_keys zero s out_map = none
  parse_keys (suc fuel) [] out_map = some (ok out_map)
  parse_keys (suc fuel) (c ∷ s) out_map =
      let (key, found) = break_at b':' (c ∷ s) in
      elim found [
        | none ↦ some (ok out_map)
        | some behind ↦
            let (ts_str, end) = break_at b';' behind in
            elim (stoull ts_str) [
              | err e ↦ some (err e)
              | ok ts ↦ elim end [
                | none ↦ some (ok (assign H key ts out_map))
                | some rest ↦ parse_keys fuel rest (assign H key ts out_map)
              ]
            ]
      ]

  abbrev pub result_of : Option (Result (Dict ℕ)) → Result (Dict ℕ)
  result_of none = ok []
  result_of (some r) = r

  -- A round reads beyond a `:`, so the loop never needs more rounds than there are bytes, and one.
  unfoldable pub parse_keys_with_timestamps : Bytes → Result (Dict ℕ)
  unfolding parse_keys
  parse_keys_with_timestamps s = result_of (parse_keys (suc (length s)) s [])

  module _ (M : Merkle) (W : World) where
    unfoldable pub fetch_and_update_key : Bytes → Run M H W (Unit {0})
    fetch_and_update_key key =
        catch_all do
          connect M H W
          value ← exchange M H W 1024 (codes "GET " ++ key)
          set_now M H W key value

    -- The request is `GET ALL`.
    unfoldable pub fetch_and_update_all_keys : Run M H W (Unit {0})
    fetch_and_update_all_keys = catch_all do
      connect M H W
      response ← exchange M H W 1024 (codes "GET ALL")
      keys_with_timestamps ← lift (parse_keys_with_timestamps response)
      for_each fetch_and_update_key (firsts keys_with_timestamps)

-- What the thread of `propagate_update` did: the delays that it slept, in milliseconds, and whether
-- the command was written.
pub record Attempts : Type 0 where
  pub delays : List ℕ
  pub delivered : Bool

abbrev pub max_retries : ℕ
max_retries = 5

-- `while (retry_count < max_retries)`, with `left` attempts left. `succeeds` says which of the
-- attempts connect and write.
unfoldable pub retry : (ℕ → Bool) → ℕ → ℕ → Attempts
retry succeeds zero retry_count = record { delays = []; delivered = false }
retry succeeds (suc left) retry_count =
    let delay = 100 * 2 ^ retry_count in
    let next = retry succeeds left (retry_count + 1) in
    if succeeds retry_count
    then record { delays = delay ∷ []; delivered = true }
    else record { delays = delay ∷ next.delays; delivered = next.delivered }

unfoldable pub propagation_thread : (ℕ → Bool) → Attempts
unfolding retry
propagation_thread succeeds = retry succeeds max_retries 0
