-- ===== src/Tests/Storage.antt =====
-- Runs of the store and of the Merkle index.
use mathlib.Core.Logic.Or
use mathlib.Core.List.{Pairwise, Pairwise-cons, Perm, Permᴰ, not-mem-nil, eq-or-mem_of_mem-cons}
use distributed_kvstore.Prelude.{ℕ, ◌≡◌, ◌≢◌, refl, ap, arith, none, some, [], ◌∷◌, Bytes, codes}
use distributed_kvstore.Text.{bytes_dec}
use distributed_kvstore.Text.Words.{extract}
use distributed_kvstore.Text.Decimal.{to_string}
use distributed_kvstore.Dict.{find, assign, NodupKeys}
use distributed_kvstore.MerkleIndex.{new_index}
use distributed_kvstore.Store.{
  ValueWithTimestamp, Shared, get, set, del, list_data, get_all_key_value_data, set_merkle_index,
  process_command,
}
use distributed_kvstore.Store.Updates.{puts, removes, run, view, register_run, view-run}
use distributed_kvstore.Store.Updates.Convergence.{Write, writes, Apart, Apart-prop, run-perm}
use distributed_kvstore.Store.Updates.Conflicts.{ties_diverge}
use distributed_kvstore.Store.IndexSync.{IsSynced, set_merkle_index-IsSynced}
use distributed_kvstore.Tests.Model.{toy, front}

abbrev pub entry : Bytes → ℕ → ValueWithTimestamp
entry value timestamp = record { value = value; timestamp = timestamp }

abbrev pub with_entry : Shared toy
with_entry = record {
  kv = record { store = (codes "k", entry (codes "old") 5) ∷ []; merkle_index = none };
  memory = [];
}

pub with_entry-NodupKeys : NodupKeys with_entry.kv.store
unfolding find
with_entry-NodupKeys = (refl, tt)

-- The commands of the store on their own, each with the clock of its call.
commands :
    (process_command front toy with_entry 7 (codes "SET k new")).1 ≡ codes "OK"
    × ((process_command front toy with_entry 4 (codes "SET k new")).1
        ≡ codes "ERROR: Outdated timestamp")
    × ((process_command front toy with_entry 4 (codes " DEL  j")).1
        ≡ codes "ERROR: Key not found or outdated timestamp")
    × ((process_command front toy with_entry 4 (codes "GET k")).1 ≡ codes "old")
    × ((process_command front toy with_entry 4 (codes "GET_ALL")).1 ≡ codes "k:5;")
    × ((process_command front toy with_entry 4 (codes "get k")).1 ≡ codes "ERROR: Invalid command")
unfolding process_command bytes_dec extract set find del get list_data get_all_key_value_data assign
    to_string
commands = (refl, refl, refl, refl, refl, refl)

view-run_example :
    view
      (run front toy with_entry (
        puts (codes "k") (entry (codes "a") 7)
        ∷ removes (codes "k") 6
        ∷ puts (codes "j") (entry (codes "b") 1)
        ∷ []))
      (codes "k")
    ≡ register_run
        (view with_entry)
        (puts (codes "k") (entry (codes "a") 7)
          ∷ removes (codes "k") 6
          ∷ puts (codes "j") (entry (codes "b") 1)
          ∷ [])
        (codes "k")
view-run_example =
    view-run front toy
      (puts (codes "k") (entry (codes "a") 7)
        ∷ removes (codes "k") 6
        ∷ puts (codes "j") (entry (codes "b") 1)
        ∷ [])
      with_entry (codes "k") with_entry-NodupKeys

abbrev first_write : Write
first_write = (codes "k", entry (codes "a") 7)

abbrev second_write : Write
second_write = (codes "k", entry (codes "b") 8)

writes-Apart : Pairwise Apart (first_write ∷ second_write ∷ [])
writes-Apart = Pairwise-cons.1 (
  (λ b m.
      Or.elim (Apart-prop first_write b) (eq-or-mem_of_mem-cons m)
        (λ e same_key same_time. omega (arith, same_time, ap (λ (w : Write). w.1.timestamp) e))
        (λ n. absurd (not-mem-nil n))),
  Pairwise-cons.1 ((λ b m. absurd (not-mem-nil m)), Pairwise.nil),
)

swapped : Perm (first_write ∷ second_write ∷ []) (second_write ∷ first_write ∷ [])
swapped = ∣ Permᴰ.swap refl refl ∣₁

run-perm_example :
    view (run front toy with_entry (writes (first_write ∷ second_write ∷ []))) (codes "k")
    ≡ view (run front toy with_entry (writes (second_write ∷ first_write ∷ []))) (codes "k")
run-perm_example =
    run-perm front toy with_entry with_entry (first_write ∷ second_write ∷ [])
      (second_write ∷ first_write ∷ []) with_entry-NodupKeys with_entry-NodupKeys (λ key. refl)
      writes-Apart swapped (codes "k")

with_entry-IsSynced : IsSynced front toy with_entry
with_entry-IsSynced = record { at_address = λ p e. absurd (none≢some e) }
  where
    none≢some : {p : ℕ} → none ≡ some p → ⊥
    none≢some e = cc

-- The index is at address 0.
abbrev pub indexed : Shared toy
indexed = set_merkle_index front toy (record with_entry { memory = new_index toy ∷ [] }) (some 0)

pub indexed-IsSynced : IsSynced front toy indexed
indexed-IsSynced =
    set_merkle_index-IsSynced front toy (record with_entry { memory = new_index toy ∷ [] }) 0
      (omega arith)

ties_diverge_example :
    view
      (run front toy with_entry
        (puts (codes "k") (entry (codes "a") 7) ∷ puts (codes "k") (entry (codes "b") 7) ∷ []))
      (codes "k")
    ≢ view
        (run front toy with_entry
          (puts (codes "k") (entry (codes "b") 7) ∷ puts (codes "k") (entry (codes "a") 7) ∷ []))
        (codes "k")
unfolding find bytes_dec
ties_diverge_example =
    ties_diverge front toy with_entry (codes "k") with_entry-NodupKeys (codes "a") (codes "b") 7
      refl (λ e. omega (arith, ap first e))
  where
    first : Bytes → ℕ
    first [] = 0
    first (c ∷ s) = c
