-- ===== src/Text/Words/Split.antt =====
-- The words of a text all at once, as `iss >> word` gives them one after the other.
use distributed_kvstore.Prelude.{
  ℕ, ◌≡◌, refl, ap, Bool, true, false, List, [], ◌∷◌, Bytes, if◌then◌else◌, Bool-cases, inl, inr,
}
use distributed_kvstore.Text.Words.{is_space, skip_spaces, take_word, extract}

abbrev add_to_first : ℕ → List Bytes → List Bytes
add_to_first c [] = (c ∷ []) ∷ []
add_to_first c (w ∷ ws) = (c ∷ w) ∷ ws

-- Whether a word goes on with the text.
abbrev goes_on : Bytes → Bool
goes_on [] = false
goes_on (c ∷ s) = if is_space c then false else true

-- The maximal runs of bytes that are not white space.
unfoldable pub words : Bytes → List Bytes
unfolding is_space
words [] = []
words (c ∷ s) =
    let ws = words s in
    if is_space c then ws else if goes_on s then add_to_first c ws else (c ∷ []) ∷ ws

-- The first word, empty where there is none, and the others.
abbrev pub first_word : List Bytes → Bytes
first_word [] = []
first_word (w ∷ ws) = w

abbrev pub other_words : List Bytes → List Bytes
other_words [] = []
other_words (w ∷ ws) = ws

words_space : (c : ℕ) (s : Bytes) → is_space c ≡ true → words (c ∷ s) ≡ words s
unfolding words
words_space c s e = rw e refl

words_end :
    (c : ℕ) (s : Bytes)
    → is_space c ≡ false
    → goes_on s ≡ false
    → words (c ∷ s) ≡ (c ∷ []) ∷ words s
unfolding words
words_end c s e stop = rw (e, stop) refl

words_more :
    (c : ℕ) (s : Bytes)
    → is_space c ≡ false
    → goes_on s ≡ true
    → words (c ∷ s) ≡ add_to_first c (words s)
unfolding words
words_more c s e more = rw (e, more) refl

words-skip_spaces : (s : Bytes) → words (skip_spaces s) ≡ words s
unfolding skip_spaces
words-skip_spaces [] = refl
words-skip_spaces (c ∷ s) = elim (Bool-cases (is_space c)) [
  | inl e ↦ rw (e, words_space c s e) (words-skip_spaces s)
  | inr e ↦ rw e refl
]

take_word_space : (c : ℕ) (s : Bytes) → is_space c ≡ true → take_word (c ∷ s) ≡ ([], c ∷ s)
unfolding take_word
take_word_space c s e = rw e refl

take_word_more :
    (c : ℕ) (s : Bytes)
    → is_space c ≡ false
    → take_word (c ∷ s) ≡ (c ∷ (take_word s).0, (take_word s).1)
unfolding take_word
take_word_more c s e = rw e refl

goes_on_space : (c : ℕ) (s : Bytes) → is_space c ≡ true → goes_on (c ∷ s) ≡ false
goes_on_space c s e = rw e refl

goes_on_more : (c : ℕ) (s : Bytes) → is_space c ≡ false → goes_on (c ∷ s) ≡ true
goes_on_more c s e = rw e refl

words-take_word :
    (c : ℕ) (s : Bytes)
    → is_space c ≡ false
    → words (c ∷ s) ≡ (take_word (c ∷ s)).0 ∷ words (take_word (c ∷ s)).1
unfolding take_word
words-take_word c [] e = rw (words_end c [] e refl, take_word_more c [] e) refl
words-take_word c (d ∷ s) e = elim (Bool-cases (is_space d)) [
  | inl space ↦
      rw
        (
          words_end c (d ∷ s) e (goes_on_space d s space),
          take_word_more c (d ∷ s) e,
          take_word_space d s space,
        )
        refl
  | inr more ↦
      rw
        (
          words_more c (d ∷ s) e (goes_on_more d s more),
          words-take_word d s more,
          take_word_more c (d ∷ s) e,
        )
        refl
]

extract_space : (c : ℕ) (s : Bytes) → is_space c ≡ true → extract (c ∷ s) ≡ extract s
unfolding extract skip_spaces
extract_space c s e = rw e refl

skip_spaces_more : (c : ℕ) (s : Bytes) → is_space c ≡ false → skip_spaces (c ∷ s) ≡ c ∷ s
unfolding skip_spaces
skip_spaces_more c s e = rw e refl

extract_more : (c : ℕ) (s : Bytes) → is_space c ≡ false → extract (c ∷ s) ≡ take_word (c ∷ s)
unfolding extract
extract_more c s e = ap take_word (skip_spaces_more c s e)

-- What `extract` reads is the first word, or nothing where there is none.
words-extract :
    (s : Bytes)
    → (first_word (words s) ≡ (extract s).0) × (other_words (words s) ≡ words (extract s).1)
words-extract [] = (unfold words extract in refl, unfold words extract in refl)
words-extract (c ∷ s) = elim (Bool-cases (is_space c)) [
  | inl e ↦ rw (words_space c s e, extract_space c s e) (words-extract s)
  | inr e ↦ rw (words-take_word c s e, extract_more c s e) (refl, refl)
]

pub first_word-words : (s : Bytes) → first_word (words s) ≡ (extract s).0
first_word-words s = (words-extract s).0

pub other_words-words : (s : Bytes) → other_words (words s) ≡ words (extract s).1
other_words-words s = (words-extract s).1
