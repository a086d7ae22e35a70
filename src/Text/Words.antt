-- ===== src/Text/Words.antt =====
-- `iss >> word` of a `std::istringstream`: skip white space, then read up to the next one. A read
-- at the end of the text fails and leaves the word empty, which is how the program declares it.
pub mod Reading
pub mod Split
use distributed_kvstore.Prelude.{
  ℕ, ◌≡◌, refl, Bool, true, false, ◌&&◌, ◌||◌, List, [], ◌∷◌, ◌++◌, Bytes, arith, leb, ◌==◌, codes,
  if◌then◌else◌, All, ◌≢◌,
}

-- `isspace` of the C locale.
unfoldable pub is_space : ℕ → Bool
is_space c = c == 32 || (leb 9 c && leb c 13)

unfoldable pub skip_spaces : Bytes → Bytes
unfolding is_space
skip_spaces [] = []
skip_spaces (c ∷ s) = if is_space c then skip_spaces s else c ∷ s

-- The word in front, and what follows it.
unfoldable pub take_word : Bytes → Bytes × Bytes
unfolding is_space
take_word [] = ([], [])
take_word (c ∷ s) = let (w, r) = take_word s in if is_space c then ([], c ∷ s) else (c ∷ w, r)

-- `iss >> word`: the word and the rest of the stream.
unfoldable pub extract : Bytes → Bytes × Bytes
unfolding skip_spaces take_word
extract s = take_word (skip_spaces s)

-- A text that is not empty and holds no white space.
abbrev pub IsWord : Bytes → Type 0
IsWord w = (w ≢ []) × All (λ c. is_space c ≡ false) w
