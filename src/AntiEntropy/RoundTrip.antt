-- ===== src/AntiEntropy/RoundTrip.antt =====
-- The manager reads a GET_PATHS response back into keys and paths.
use mathlib.Core.List.{append_assoc}
use distributed_kvstore.Prelude.{
  ◌≡◌, ◌≢◌, refl, sym, ap, ◌∙◌, List, [], ◌∷◌, ◌++◌, Bytes, ok, arith, All, All-append, length,
}
use distributed_kvstore.Text.{Lacks}
use distributed_kvstore.Text.Fields.{fields, fields-append, break_at-append}
use distributed_kvstore.Text.Hex.{to_hex, digit_value}
use distributed_kvstore.Text.Hex.RoundTrip.{from_hex-to_hex, to_hex-Lacks}
use distributed_kvstore.Merkle.{Merkle, IsMerkle}
use distributed_kvstore.Node.{list_paths}
use distributed_kvstore.AntiEntropy.{parse_peer_paths, paths_of_entries, firsts, remote_paths}

-- The separators of the protocol do not occur in the key.
abbrev pub IsPlain : Bytes → Type 0
IsPlain key = Lacks b';' key × Lacks b',' key

module _ (M : Merkle) (L : IsMerkle M) where
  -- Keys with the bytes of their paths.
  abbrev paired : List Bytes → List M.MerklePath → List (Bytes × Bytes)
  paired [] ps = []
  paired (k ∷ keys) [] = []
  paired (k ∷ keys) (p ∷ ps) = (k, M.serialise p) ∷ paired keys ps

  entry : Bytes → M.MerklePath → Bytes
  entry k p = k ++ b',' ∷ to_hex (M.serialise p)

  entry-Lacks : (k : Bytes) (p : M.MerklePath) → Lacks b';' k → Lacks b';' (entry k p)
  unfolding entry digit_value
  entry-Lacks k p h =
      All-append (λ b. b ≢ b';') k (b',' ∷ to_hex (M.serialise p)) h
        (omega arith, to_hex-Lacks b';' (M.serialise p) (L.serialise-bytes p) refl)

  fields-list_paths :
      (k : Bytes) (keys : List Bytes) (p : M.MerklePath) (ps : List M.MerklePath)
      → Lacks b';' k
      → fields b';' (list_paths M (k ∷ keys) (p ∷ ps))
        ≡ entry k p ∷ fields b';' (list_paths M keys ps)
  unfolding list_paths entry
  fields-list_paths k keys p ps h =
      ap (fields b';') (sym (append_assoc k (b',' ∷ to_hex (M.serialise p)) _))
      ∙ fields-append b';' (k ++ b',' ∷ to_hex (M.serialise p)) _
          (unfold entry in entry-Lacks k p h)

  paths_of_entry :
      (k : Bytes) (p : M.MerklePath) (entries : List Bytes) (rest : List (Bytes × Bytes))
      → Lacks b',' k
      → paths_of_entries entries ≡ ok rest
      → paths_of_entries (entry k p ∷ entries) ≡ ok ((k, M.serialise p) ∷ rest)
  unfolding paths_of_entries entry
  paths_of_entry k p entries rest h e =
      rw
        (
          break_at-append b',' k (to_hex (M.serialise p)) h,
          from_hex-to_hex (M.serialise p) (L.serialise-bytes p),
          e,
        )
        refl

  -- The response that a node gives for keys and their paths is read as these keys with the bytes of
  -- these paths, up to the end of the shorter list, if no key holds a separator.
  parse-list_paths :
      (keys : List Bytes) (ps : List M.MerklePath)
      → All IsPlain keys
      → parse_peer_paths (list_paths M keys ps) ≡ ok (paired keys ps)
  unfolding parse_peer_paths
  parse-list_paths [] ps h = unfold list_paths fields paths_of_entries in refl
  parse-list_paths (k ∷ keys) [] h = unfold list_paths fields paths_of_entries in refl
  parse-list_paths (k ∷ keys) (p ∷ ps) ((semi, comma), h) =
      ap paths_of_entries (fields-list_paths k keys p ps semi)
      ∙ paths_of_entry k p _ (paired keys ps) comma (parse-list_paths keys ps h)

  remote_paths-paired :
      (keys : List Bytes) (ps : List M.MerklePath)
      → length keys ≡ length ps
      → (remote_paths M (paired keys ps) ≡ ok ps) × (firsts (paired keys ps) ≡ keys)
  unfolding remote_paths firsts
  remote_paths-paired [] [] e = (refl, refl)
  remote_paths-paired [] (p ∷ ps) e = absurd (omega arith)
  remote_paths-paired (k ∷ keys) [] e = absurd (omega arith)
  remote_paths-paired (k ∷ keys) (p ∷ ps) e =
      let (h, f) = remote_paths-paired keys ps (omega arith) in
      (rw (L.deserialise-serialise p, h) refl, ap (λ (l : List Bytes). k ∷ l) f)

  -- Under the laws of merklecpp, the response that a node gives for as many keys as paths, no key with
  -- a separator, is read back:
  -- the manager has the same keys, and from the bytes the same paths.
  pub read_response :
      (keys : List Bytes) (ps : List M.MerklePath)
      → All IsPlain keys
      → length keys ≡ length ps
      → (l : List (Bytes × Bytes)) × (parse_peer_paths (list_paths M keys ps) ≡ ok l)
        × (remote_paths M l ≡ ok ps)
        × (firsts l ≡ keys)
  read_response keys ps plain e =
      let (r, f) = remote_paths-paired keys ps e in
      (paired keys ps, parse-list_paths keys ps plain, r, f)
