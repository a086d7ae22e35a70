-- ===== src/Tests/Model.antt =====
-- A library of trees and a table order for concrete runs: a tree is the list of its leaves' hashes,
-- a hash is a number below 251, and a path is the root of its tree.
use mathlib.Core.List.Permᴰ.{refl as same_order}
use distributed_kvstore.Prelude.{
  ℕ, zero, suc, ◌+◌, ◌*◌, ◌%◌, ◌≡◌, ◌<◌, refl, true, List, [], ◌∷◌, ◌++◌, Bytes, ok, ◌==◌, length,
  length-append, All, arith,
}
use distributed_kvstore.Text.Decimal.{to_string}
use distributed_kvstore.Dict.{HashOrder}
use distributed_kvstore.Merkle.{Merkle, IsMerkle}
use distributed_kvstore.Session.{Link}

-- Horner's rule modulo 251.
abbrev mix : ℕ → List ℕ → ℕ
mix h [] = h
mix h (x ∷ xs) = mix ((3 * h + x) % 251) xs

abbrev zeros : ℕ → Bytes
zeros zero = []
zeros (suc n) = 0 ∷ zeros n

abbrev pub toy : Merkle
toy = record {
  Hash = ℕ;
  Tree = List ℕ;
  MerklePath = ℕ;
  zero_hash = 0;
  write_bytes = mix;
  hash_string = to_string;
  sha256_compress = λ a b. (a + 3 * b) % 251;
  new_tree = [];
  insert = λ t h. t ++ h ∷ [];
  num_leaves = length;
  is_empty = λ t. length t == 0;
  root = mix 7;
  path = λ t i. mix 7 t;
  verify = λ p r. p == r;
  serialise = zeros;
  deserialise = λ s. ok (length s);
}

length-zeros : (n : ℕ) → length (zeros n) ≡ n
length-zeros zero = refl
length-zeros (suc n) = rw (length-zeros n) refl

zeros_small : (n : ℕ) → All (λ b. b < 256) (zeros n)
zeros_small zero = tt
zeros_small (suc n) = (omega arith, zeros_small n)

pub toy-IsMerkle : IsMerkle toy
toy-IsMerkle = record {
  num_leaves-new_tree = refl;
  num_leaves-insert = λ t h. omega (arith, length-append t (h ∷ []));
  is_empty-num_leaves = λ t. refl;
  verify-path = λ t i r lt. (λ e. ground (arith, e), λ e. ground (arith, e));
  deserialise-serialise = λ p. rw (length-zeros p) refl;
  serialise-bytes = zeros_small;
}

-- A table that puts a new entry in front.
abbrev pub front : HashOrder
front = record { place = λ V e d. e ∷ d; place-perm = λ V e d. same_order (e ∷ d) }

-- Every connection is accepted, an exchange takes a millisecond, and the clocks agree.
abbrev pub link : Link
link = record { accepts = λ t. true; elapse = λ t. t + 1; server_clock = λ t. t }
