-- ===== src/Tests/Texts.antt =====
-- Runs of the texts' functions and of the Merkle index.
use distributed_kvstore.Prelude.{
  ◌≡◌, ◌≢◌, refl, [], ◌∷◌, ◌++◌, Bytes, codes, arith, ok, err, out_of_range, invalid_argument,
}
use distributed_kvstore.Text.{bytes_dec}
use distributed_kvstore.Text.Words.{extract}
use distributed_kvstore.Text.Decimal.{to_string, stoull, max_u64, is_digit}
use distributed_kvstore.Text.Decimal.RoundTrip.{stoull-to_string}
use distributed_kvstore.Text.Hex.{to_hex, from_hex, stoi_u8}
use distributed_kvstore.Dict.{find, assign, NodupKeys}
use distributed_kvstore.MerkleIndex.{
  KeyValueData, get_root_hash, rebuild, find_differences, get_paths, hash_key_value,
}
use distributed_kvstore.MerkleIndex.Build.{find-rebuild, position, rebuild-IsIndexed}
use distributed_kvstore.MerkleIndex.Blocks.{root_shifted_colon}
use distributed_kvstore.MerkleIndex.Hashing.{root_long_keys}
use distributed_kvstore.MerkleIndex.Paths.{find_differences-get_paths}
use distributed_kvstore.Tests.Model.{toy, toy-IsMerkle, front}

texts :
    (extract (codes "  SET k") ≡ (codes "SET", codes " k"))
    × (to_string 1050 ≡ codes "1050")
    × (stoull (codes " 42;") ≡ ok 42)
    × (stoull (codes "-1") ≡ ok max_u64)
    × (stoull (codes "18446744073709551616") ≡ err out_of_range)
    × (stoull (codes "x") ≡ err invalid_argument)
    × (to_hex (10 ∷ 255 ∷ []) ≡ codes "0aff")
    × (from_hex (codes "0aFf") ≡ ok (10 ∷ 255 ∷ []))
unfolding extract to_string stoull to_hex from_hex stoi_u8
texts = (refl, refl, refl, refl, refl, refl, refl, refl)

stoull-to_string_example : stoull (to_string 1050 ++ codes ";k") ≡ ok 1050
unfolding is_digit
stoull-to_string_example = stoull-to_string 1050 (codes ";k") (omega arith) refl

abbrev stored : KeyValueData
stored = (codes "k", (codes "a", 3)) ∷ (codes "j", (codes "b", 4)) ∷ []

abbrev changed : KeyValueData
changed = (codes "k", (codes "a", 3)) ∷ (codes "j", (codes "c", 5)) ∷ []

stored-NodupKeys : NodupKeys stored
unfolding find bytes_dec
stored-NodupKeys = (refl, (refl, tt))

find-rebuild_example :
    find (codes "j") (rebuild toy front stored).key_to_index ≡ position (codes "j") stored 0
find-rebuild_example = find-rebuild toy front stored (codes "j") stored-NodupKeys

find_differences-get_paths_example :
    find_differences toy
      (rebuild toy front changed)
      (get_paths toy (rebuild toy front stored) (codes "k" ∷ codes "j" ∷ []))
      (codes "k" ∷ codes "j" ∷ [])
    ≡ codes "k" ∷ codes "j" ∷ []
unfolding rebuild find bytes_dec to_string hash_key_value assign
find_differences-get_paths_example =
    find_differences-get_paths toy toy-IsMerkle (rebuild toy front stored)
      (rebuild-IsIndexed toy front toy-IsMerkle stored stored-NodupKeys) (rebuild toy front changed)
      (codes "k" ∷ codes "j" ∷ []) ((0, refl), ((1, refl), tt)) (no (λ e. omega (arith, e)))

abbrev long_key : Bytes
long_key = codes "a key that has thirty-one bytes"

root_long_keys_example :
    get_root_hash toy (rebuild toy front ((long_key, (codes "a", 3)) ∷ []))
    ≡ get_root_hash toy (rebuild toy front ((long_key, (codes "b", 9)) ∷ []))
root_long_keys_example =
    root_long_keys toy front ((long_key, (codes "a", 3)) ∷ []) ((long_key, (codes "b", 9)) ∷ [])
      (omega arith, refl, tt)

-- Two tables with the same entries in different orders have different roots.
order_matters :
    get_root_hash toy
      (rebuild toy front ((codes "k", (codes "a", 3)) ∷ (codes "j", (codes "b", 4)) ∷ []))
    ≢ get_root_hash toy
        (rebuild toy front ((codes "j", (codes "b", 4)) ∷ (codes "k", (codes "a", 3)) ∷ []))
unfolding get_root_hash rebuild hash_key_value to_string
order_matters e = omega (arith, e)

root_shifted_colon_example :
    get_root_hash toy (rebuild toy front (stored ++ (codes "a:b", (codes "c", 5)) ∷ []))
    ≡ get_root_hash toy (rebuild toy front (stored ++ (codes "a", (codes "b:c", 5)) ∷ []))
root_shifted_colon_example =
    root_shifted_colon toy front stored [] (codes "a") (codes "b") (codes "c") 5
