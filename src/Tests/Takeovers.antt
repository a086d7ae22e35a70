-- ===== src/Tests/Takeovers.antt =====
-- A peer that goes on answering, and runs against it.
use distributed_kvstore.Prelude.{
  ℕ, ◌≤◌, length, Bool, true, false, Result, ◌≡◌, [], ◌∷◌, Bytes, codes, ok, arith, if◌then◌else◌,
  ◌==◌, ap,
}
use distributed_kvstore.Text.{bytes_dec}
use distributed_kvstore.Text.Decimal.{to_string}
use distributed_kvstore.Dict.{find, assign}
use distributed_kvstore.MerkleIndex.{
  MerkleTreeIndex, KeyValueData, rebuild, get_paths, hash_key_value,
}
use distributed_kvstore.Store.{Shared, set}
use distributed_kvstore.Node.{list_paths}
use distributed_kvstore.Io.{World}
use distributed_kvstore.AntiEntropy.Safety.{IsLater}
use distributed_kvstore.AntiEntropy.Steps.{beginning, finished}
use distributed_kvstore.AntiEntropy.Steps.Ending.{ReadsWithin, disturbed, disturbed_ends}
use distributed_kvstore.Text.Hex.{to_hex}
use distributed_kvstore.Requests.{fetch_and_update_all_keys}
use distributed_kvstore.Requests.Safety.{fetch_all-IsLater}
use distributed_kvstore.Tests.Model.{toy, front}
use distributed_kvstore.Tests.Storage.{indexed, indexed-IsSynced}
use distributed_kvstore.Tests.Rounds.{manager, indexed-NodupKeys}

abbrev peer_data : KeyValueData
peer_data = (codes "k", (codes "new", 9)) ∷ []

abbrev peer_index : MerkleTreeIndex toy
peer_index = rebuild toy front peer_data

-- The responses, by the fourth and the fifth byte of the request.
abbrev respond : Bytes → Bytes
respond (g ∷ e ∷ t ∷ c ∷ d ∷ s) =
    if c == 32
    then codes "new"
    else if d == b'M'
    then codes "another root"
    else if d == b'A'
    then codes "k:9;"
    else list_paths toy (codes "k" ∷ []) (get_paths toy peer_index (codes "k" ∷ []))
respond s = codes "new"

abbrev pub peer : World
peer = record {
  State = Unit {0};
  connect = λ w. (ok tt, w);
  exchange = λ n w request. (ok (respond request), w);
  clock = λ w. 12;
}

fetch_all-IsLater_example :
    let r = fetch_and_update_all_keys front toy peer (indexed, tt) in
    (r.0 ≡ ok tt) × IsLater front toy indexed r.1.0
fetch_all-IsLater_example =
    fetch_all-IsLater toy front peer indexed tt indexed-NodupKeys indexed-IsSynced

one_of_short :
    (b : Bool) (s t : Bytes)
    → length s ≤ 4096
    → length t ≤ 4096
    → length (if b then s else t) ≤ 4096
one_of_short true s t h k = h
one_of_short false s t h k = k

paths_short :
    length (list_paths toy (codes "k" ∷ []) (get_paths toy peer_index (codes "k" ∷ []))) ≤ 4096
unfolding list_paths get_paths to_hex find rebuild assign bytes_dec hash_key_value to_string
paths_short = omega arith

respond_short : (request : Bytes) → length (respond request) ≤ 4096
respond_short (g ∷ e ∷ t ∷ c ∷ d ∷ s) = one_of_short (c == 32) (codes "new") _ (omega arith) (
    one_of_short (d == b'M') (codes "another root") _ (omega arith)
      (one_of_short (d == b'A') (codes "k:9;") _ (omega arith) paths_short))
respond_short [] = omega arith
respond_short (g ∷ []) = omega arith
respond_short (g ∷ e ∷ []) = omega arith
respond_short (g ∷ e ∷ t ∷ []) = omega arith
respond_short (g ∷ e ∷ t ∷ c ∷ []) = omega arith

peer-ReadsWithin : ReadsWithin 4096 peer
peer-ReadsWithin w request answer e =
    let same : respond request ≡ answer = cc in omega (arith, respond_short request, ap length same)

-- A client that sets `k` again behind every step.
abbrev busy : ℕ → Shared toy × Unit {0} → Shared toy × Unit {0}
busy n (s, w) = ((set front toy s (codes "k") (codes "mine") n).0, w)

disturbed_ends_example :
    (r : Result (Unit {0})) × ((disturbed toy front peer 4103 busy manager
        (beginning, (indexed, tt))).0
      ≡ finished r)
disturbed_ends_example = disturbed_ends toy front peer peer-ReadsWithin manager busy (indexed, tt)
