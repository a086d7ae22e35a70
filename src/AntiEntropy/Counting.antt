-- ===== src/AntiEntropy/Counting.antt =====
-- How many keys an answer of the peer can make the manager ask for.
use distributed_kvstore.Prelude.{
  ℕ, suc, Option, ◌+◌, ◌*◌, ◌≤◌, ◌≡◌, refl, none, some, List, [], ◌∷◌, ◌++◌, Bytes, arith, length,
  length-append, Result, ok, err, ◌>>=◌ as then_result,
}
use distributed_kvstore.Text.Fields.{break_at, fields}
use distributed_kvstore.Text.Fields.Counting.{total, total-fields, length-break_at}
use distributed_kvstore.Text.Hex.{from_hex}
use distributed_kvstore.Dict.{HashOrder}
use distributed_kvstore.Merkle.{Merkle}
use distributed_kvstore.MerkleIndex.{MerkleTreeIndex, differing, find_differences}
use distributed_kvstore.Store.{Shared}
use distributed_kvstore.Node.{deref}
use distributed_kvstore.Io.{World, after}
use distributed_kvstore.AntiEntropy.{
  path_of_entry, paths_of_entries, parse_peer_paths, firsts, differing_keys, remote_paths,
}

-- The result is a list that is at most half as long.
abbrev pub AtMostHalf : {A : Type 0} → ℕ → Result (List A) → Type 0
AtMostHalf n (ok l) = 2 * length l ≤ n
AtMostHalf n (err e) = Unit

AtMostHalf-join :
    {A : Type 0} (m n : ℕ) (x y : Result (List A))
    → AtMostHalf m x
    → AtMostHalf n y
    → AtMostHalf (m + n) (then_result x (λ here. then_result y (λ rest. ok (here ++ rest))))
AtMostHalf-join m n (ok xs) (ok ys) h k = omega (arith, length-append xs ys)
AtMostHalf-join m n (ok xs) (err e) h k = tt
AtMostHalf-join m n (err e) y h k = tt

hex_entry-AtMostHalf :
    (n : ℕ) (key : Bytes) (x : Result Bytes)
    → 2 ≤ n
    → AtMostHalf {A = Bytes × Bytes} n (then_result x (λ path_bytes. ok ((key, path_bytes) ∷ [])))
hex_entry-AtMostHalf n key (ok bytes) h = h
hex_entry-AtMostHalf n key (err e) h = tt

path_of_entry-AtMostHalf :
    (e : Bytes) (b : Bytes × Option Bytes)
    → break_at b',' e ≡ b
    → AtMostHalf (suc (length e)) (path_of_entry b [])
path_of_entry-AtMostHalf e (key, none) h = omega arith
path_of_entry-AtMostHalf e (key, some hexpath) h =
    let l = length-break_at b',' e key hexpath h in
    hex_entry-AtMostHalf (suc (length e)) key (from_hex hexpath) (omega (arith, l))

paths_of_entries-AtMostHalf : (es : List Bytes) → AtMostHalf (total es) (paths_of_entries es)
unfolding paths_of_entries total
paths_of_entries-AtMostHalf [] = omega arith
paths_of_entries-AtMostHalf (e ∷ es) =
    AtMostHalf-join (suc (length e)) (total es) (path_of_entry (break_at b',' e) [])
      (paths_of_entries es) (path_of_entry-AtMostHalf e (break_at b',' e) refl)
      (paths_of_entries-AtMostHalf es)

AtMostHalf-mono :
    {A : Type 0} (m n : ℕ) (x : Result (List A)) → m ≤ n → AtMostHalf m x → AtMostHalf n x
AtMostHalf-mono m n (ok xs) l h = omega arith
AtMostHalf-mono m n (err e) l h = tt

parse_peer_paths-AtMostHalf : (s : Bytes) → AtMostHalf (length s + 1) (parse_peer_paths s)
unfolding parse_peer_paths
parse_peer_paths-AtMostHalf s =
    AtMostHalf-mono (total (fields b';' s)) (length s + 1) (paths_of_entries (fields b';' s))
      (total-fields b';' s) (paths_of_entries-AtMostHalf (fields b';' s))

length-firsts : (l : List (Bytes × Bytes)) → length (firsts l) ≡ length l
unfolding firsts
length-firsts [] = refl
length-firsts ((k, p) ∷ l) = omega (arith, length-firsts l)

module _ (M : Merkle) where
  length-differing :
      (r : M.Hash) (ps : List M.MerklePath) (keys : List Bytes)
      → length (differing M r ps keys) ≤ length keys
  unfolding differing
  length-differing r [] keys = omega arith
  length-differing r (p ∷ ps) [] = omega arith
  length-differing r (p ∷ ps) (k ∷ keys) = ground (arith, length-differing r ps keys)

  length-find_differences :
      (x : MerkleTreeIndex M) (ps : List M.MerklePath) (keys : List Bytes)
      → length (find_differences M x ps keys) ≤ length keys
  unfolding find_differences
  length-find_differences x ps keys =
      ground (arith, length-differing (M.root x.merkle_tree) ps keys)

  module _ (H : HashOrder) (W : World) (p : ℕ) (s : Shared M × W.State) where
    remote-AtMostHalf :
        (n : ℕ) (ps : List (Bytes × Bytes)) (y : Result (List M.MerklePath))
        → 2 * length ps ≤ n
        → AtMostHalf n
            (after {B = List Bytes}
              (y, s)
              (λ remote t.
                (ok (find_differences M (deref M t.0.memory p) remote (firsts ps)), t))).0
    remote-AtMostHalf n ps (ok remote) h =
        omega (
          arith,
          length-find_differences (deref M s.0.memory p) remote (firsts ps),
          length-firsts ps,
        )
    remote-AtMostHalf n ps (err e) h = tt

    parsed-AtMostHalf :
        (n : ℕ) (x : Result (List (Bytes × Bytes)))
        → AtMostHalf n x
        → AtMostHalf n
            (after {B = List Bytes}
              (x, s)
              (λ ps t.
                after
                  (remote_paths M ps, t)
                  (λ remote u.
                    (ok (find_differences M (deref M u.0.memory p) remote (firsts ps)), u)))).0
    parsed-AtMostHalf n (ok ps) h = remote-AtMostHalf n ps (remote_paths M ps) h
    parsed-AtMostHalf n (err e) h = tt

    -- Of the keys that differ there are at most half as many as the answer has bytes.
    pub differing_keys-AtMostHalf :
        (answer : Bytes) → AtMostHalf (length answer + 1) (differing_keys M H W p answer s).0
    unfolding differing_keys
    differing_keys-AtMostHalf answer =
        parsed-AtMostHalf (length answer + 1) (parse_peer_paths answer)
          (parse_peer_paths-AtMostHalf answer)
